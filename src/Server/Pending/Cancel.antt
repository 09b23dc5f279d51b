-- ===== src/Server/Pending/Cancel.antt =====
-- What a cancel request sets.
use ryu_db.Common.{
  ℕ, String, ◌≡◌, refl, Bool, true, false, not, ◌||◌, Option, none, some, List, [], ◌∷◌, keep_if,
  ◌==◌, arith,
}
use ryu_db.Common.Dict.{Dict, lookup}
use ryu_db.Server.Pending.{Pending, of_conn, Cancelled, cancel_one, cancel_targets, cancel_pending}

abbrev pub is_set : ℕ → List ℕ → Bool
is_set e [] = false
is_set e (f ∷ fs) = f == e || is_set e fs

-- The event of a request that is in flight.
abbrev pub is_event : ℕ → Option ℕ → Bool
is_event e none = false
is_event e (some f) = f == e

-- The event of one of the targets.
abbrev pub is_target : ℕ → Dict ℕ → List String → Bool
is_target e pending [] = false
is_target e pending (t ∷ ts) = is_event e (lookup t pending) || is_target e pending ts

abbrev pub found : Option ℕ → Bool
found none = false
found (some e) = true

cancel_one_lem :
    (pending : Dict ℕ) (t : String) (ts : List String) (flags : List ℕ) (o : Option ℕ)
    (c : Cancelled)
    → lookup t pending ≡ o
    → (c.cancelled ≡ keep_if (λ s. found (lookup s pending)) ts)
      × (c.not_found ≡ keep_if (λ s. not (found (lookup s pending))) ts)
      × ((e : ℕ) → is_set e c.flags ≡ (is_target e pending ts || is_set e flags))
    → ((cancel_one t o c).cancelled ≡ keep_if (λ s. found (lookup s pending)) (t ∷ ts))
      × ((cancel_one t o c).not_found ≡ keep_if (λ s. not (found (lookup s pending))) (t ∷ ts))
      × ((e : ℕ)
          → is_set e (cancel_one t o c).flags ≡ (is_target e pending (t ∷ ts) || is_set e flags))
cancel_one_lem pending t ts flags none c e (a, b, h) =
    (rw (e, a) refl, rw (e, b) refl, λ k. rw e (h k))
cancel_one_lem pending t ts flags (some f) c e (a, b, h) =
    (rw (e, a) refl, rw (e, b) refl, λ k. rw e (ground (arith, h k)))

cancel_targets_lem :
    (pending : Dict ℕ) (ts : List String) (flags : List ℕ)
    → let c = cancel_targets pending ts flags in
      (c.cancelled ≡ keep_if (λ s. found (lookup s pending)) ts)
      × (c.not_found ≡ keep_if (λ s. not (found (lookup s pending))) ts)
      × ((e : ℕ) → is_set e c.flags ≡ (is_target e pending ts || is_set e flags))
unfolding cancel_targets
cancel_targets_lem pending [] flags = (refl, refl, λ e. refl)
cancel_targets_lem pending (t ∷ ts) flags =
    cancel_one_lem pending t ts flags (lookup t pending) (cancel_targets pending ts flags) refl
      (cancel_targets_lem pending ts flags)

-- A cancel request answers with the targets that the connection has in flight and those that it has
-- not, each in the order asked, and sets the events of the former and no others.
pub cancel_pending_lem :
    (ws : String) (targets : List String) (p : Pending)
    → let ((cancelled, not_found), after) = cancel_pending ws targets p in
      let pending = of_conn ws p.by_conn in
      (cancelled ≡ keep_if (λ s. found (lookup s pending)) targets)
      × (not_found ≡ keep_if (λ s. not (found (lookup s pending))) targets)
      × ((e : ℕ) → is_set e after.flags ≡ (is_target e pending targets || is_set e p.flags))
unfolding cancel_pending
cancel_pending_lem ws targets p = cancel_targets_lem (of_conn ws p.by_conn) targets p.flags
