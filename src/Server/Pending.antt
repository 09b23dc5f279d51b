-- ===== src/Server/Pending.antt =====
-- ryudb/server/app.py: the requests in flight of each connection, and their cancellation
-- (`register_pending`, `unregister_pending`, `cancel_pending`, the `finally` of `_handler`). A
-- `threading.Event` is a number; `flags` are the events that are set.
pub mod Cancel
use ryu_db.Common.{
  ℕ, String, ◌=ₛ◌, Bool, true, false, Option, none, some, List, [], ◌∷◌, ◌++◌, if◌then◌else◌,
}
use ryu_db.Common.Dict.{Dict, lookup, insert, erase, has_key}

pub record Pending : Type 0 where
  pub by_conn : Dict (Dict ℕ)
  pub flags : List ℕ

-- `self._pending.get(id(ws), {})`
abbrev pub of_conn : String → Dict (Dict ℕ) → Dict ℕ
of_conn ws [] = []
of_conn ws ((w, d) ∷ p) = if w =ₛ ws then d else of_conn ws p

unfoldable pub register_pending : String → Option String → ℕ → Pending → Pending
register_pending ws none event p = p
register_pending ws (some rid) event p = record p {
  by_conn = insert ws (insert rid event (of_conn ws p.by_conn)) p.by_conn;
}

unfoldable pub unregister_pending : String → Option String → Pending → Pending
unregister_pending ws none p = p
unregister_pending ws (some rid) p =
    if has_key ws p.by_conn
    then record p { by_conn = insert ws (erase rid (of_conn ws p.by_conn)) p.by_conn }
    else p

-- `cancelled`, `not_found`, and the events set on the way.
pub record Cancelled : Type 0 where
  pub cancelled : List String
  pub not_found : List String
  pub flags : List ℕ

-- What a target adds to what the targets behind it give.
abbrev pub cancel_one : String → Option ℕ → Cancelled → Cancelled
cancel_one t none c = record c { not_found = t ∷ c.not_found }
cancel_one t (some event) c = record c { cancelled = t ∷ c.cancelled; flags = event ∷ c.flags }

-- The loop over the targets.
unfoldable pub cancel_targets : Dict ℕ → List String → List ℕ → Cancelled
cancel_targets pending [] flags = record { cancelled = []; not_found = []; flags = flags }
cancel_targets pending (t ∷ ts) flags =
    cancel_one t (lookup t pending) (cancel_targets pending ts flags)

unfoldable pub cancel_pending :
    String → List String → Pending → (List String × List String) × Pending
unfolding cancel_targets
cancel_pending ws targets p =
    let c = cancel_targets (of_conn ws p.by_conn) targets p.flags in
    ((c.cancelled, c.not_found), record p { flags = c.flags })

-- `for ev in pending.values(): ev.set()`
unfoldable pub set_all : Dict ℕ → List ℕ → List ℕ
set_all [] flags = flags
set_all ((rid, event) ∷ d) flags = event ∷ set_all d flags

-- A disconnect sets the events of all requests that are still registered.
unfoldable pub disconnect_pending : String → Pending → Pending
unfolding set_all
disconnect_pending ws p = record p {
  by_conn = erase ws p.by_conn;
  flags = set_all (of_conn ws p.by_conn) p.flags;
}
