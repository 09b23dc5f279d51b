-- ===== src/Pgwire/Session/Owned.antt =====
-- The cursors of a connection and the tables that the server keeps for them.
use text.Mathlib.TextEquality.{eq_iff}
use ryu_db.Common.{
  ℕ, String, ◌≡◌, refl, sym, ◌∙◌, ◌≢◌, ◌+◌, Bool, true, false, not, ◌&&◌, ◌||◌, [], ◌∷◌, some,
  arith, ◌=ₛ◌,
}
use ryu_db.Common.Dict.{
  Dict, lookup, insert, erase, has_key, IsDict, has_key-insert, has_key-erase_iff, insert-IsDict,
  erase-IsDict,
}
use ryu_db.Common.Integers.{ℤ}
use ryu_db.Server.Cursors.{Cursor, close_cursor}
use ryu_db.Pgwire.Session.{close_each}

-- A cursor of the connection stands for the server's cursor `cid`.
abbrev pub owns : String → Dict (String × ℤ) → Bool
owns cid [] = false
owns cid ((name, (c, offset)) ∷ d) = c =ₛ cid || owns cid d

-- No two of them stand for the same.
abbrev pub IsApart : Dict (String × ℤ) → Type 0
IsApart [] = Unit {0}
IsApart ((name, (c, offset)) ∷ d) = (owns c d ≡ false) × IsApart d

owns-insert_new :
    (name cid c : String) (o : ℤ) (d : Dict (String × ℤ))
    → has_key name d ≡ false
    → owns c (insert name (cid, o) d) ≡ (cid =ₛ c || owns c d)
owns-insert_new name cid c o [] h = refl
owns-insert_new name cid c o ((n, (e, p)) ∷ d) h = ground (arith, owns-insert_new name cid c o d)

owns-insert_old :
    (name cid c : String) (o p : ℤ) (d : Dict (String × ℤ))
    → lookup name d ≡ some (cid, p)
    → owns c (insert name (cid, o) d) ≡ owns c d
owns-insert_old name cid c o p [] h = cc
owns-insert_old name cid c o p ((n, (e, q)) ∷ d) h =
    ground (arith, owns-insert_old name cid c o p d)

IsApart-insert_new :
    (name cid : String) (o : ℤ) (d : Dict (String × ℤ))
    → has_key name d ≡ false
    → owns cid d ≡ false
    → IsApart d
    → IsApart (insert name (cid, o) d)
IsApart-insert_new name cid o [] h u a = (refl, tt)
IsApart-insert_new name cid o ((n, (e, p)) ∷ d) h u a = ground (
  arith,
  eq_iff e cid,
  eq_iff cid e,
  owns-insert_new name cid e o d,
  IsApart-insert_new name cid o d,
)

IsApart-insert_old :
    (name cid : String) (o p : ℤ) (d : Dict (String × ℤ))
    → lookup name d ≡ some (cid, p)
    → IsApart d
    → IsApart (insert name (cid, o) d)
IsApart-insert_old name cid o p [] h a = cc
IsApart-insert_old name cid o p ((n, (e, q)) ∷ d) h a =
    ground (arith, owns-insert_old name cid e o p d, IsApart-insert_old name cid o p d)

owns_found :
    (name cid : String) (p : ℤ) (d : Dict (String × ℤ))
    → lookup name d ≡ some (cid, p)
    → owns cid d ≡ true
owns_found name cid p [] h = cc
owns_found name cid p ((n, (e, q)) ∷ d) h = ground (arith, eq_iff e cid, owns_found name cid p d)

owns-erase_missing :
    (name c : String) (d : Dict (String × ℤ))
    → has_key name d ≡ false
    → owns c (erase name d) ≡ owns c d
owns-erase_missing name c [] h = refl
owns-erase_missing name c ((n, (e, q)) ∷ d) h = ground (arith, owns-erase_missing name c d)

owns-erase :
    (name cid c : String) (p : ℤ) (d : Dict (String × ℤ))
    → IsDict d
    → IsApart d
    → lookup name d ≡ some (cid, p)
    → owns c (erase name d) ≡ (not (cid =ₛ c) && owns c d)
owns-erase name cid c p [] i a h = cc
owns-erase name cid c p ((n, (e, q)) ∷ d) i a h = ground (
  arith,
  eq_iff n name,
  eq_iff cid c,
  eq_iff e c,
  owns_found name cid p d,
  owns-erase_missing name c d,
  owns-erase name cid c p d i.1 a.1,
)

owns-erase-false :
    (name c : String) (d : Dict (String × ℤ)) → owns c d ≡ false → owns c (erase name d) ≡ false
owns-erase-false name c [] h = refl
owns-erase-false name c ((n, (e, q)) ∷ d) h = ground (arith, owns-erase-false name c d)

IsApart-erase : (name : String) (d : Dict (String × ℤ)) → IsApart d → IsApart (erase name d)
IsApart-erase name [] a = tt
IsApart-erase name ((n, (e, q)) ∷ d) a =
    ground (arith, owns-erase-false name e d, IsApart-erase name d)

module _ {T : Type 0} where
  has_key-close_each :
      (d : Dict (String × ℤ)) (store : Dict (Cursor T)) (c : String)
      → has_key c (close_each d store) ≡ (has_key c store && not (owns c d))
  unfolding close_each close_cursor
  has_key-close_each [] store c = ground arith
  has_key-close_each ((n, (e, q)) ∷ d) store c =
      ground (arith, has_key-close_each d (erase e store) c, has_key-erase_iff e c store)

-- Of a connection: its cursors, the server's tables for them, and the ids to come. The cursors have
-- different names and stand for different tables, the tables are those of the cursors and no others, and
-- the ids to come are new and all different.
pub record IsOwned {T : Type 0} (d : Dict (String × ℤ)) (store : Dict (Cursor T)) (ids : ℕ → String)
    : Type 0 where
  pub names : IsDict d
  pub apart : IsApart d
  pub stored : (c : String) → has_key c store ≡ owns c d
  pub new : (n : ℕ) → owns (ids n) d ≡ false
  pub different : (m n : ℕ) → m ≢ n → (ids m =ₛ ids n) ≡ false

module _ {T : Type 0} {d : Dict (String × ℤ)} {store : Dict (Cursor T)} {ids : ℕ → String}
    (h : IsOwned d store ids) where
  pub moved_cursor :
      (name cid : String) (o p : ℤ)
      → lookup name d ≡ some (cid, p)
      → IsOwned (insert name (cid, o) d) store ids
  moved_cursor name cid o p found = record {
    names = insert-IsDict name (cid, o) d h.names;
    apart = IsApart-insert_old name cid o p d found h.apart;
    stored = λ c. h.stored c ∙ sym (owns-insert_old name cid c o p d found);
    new = λ n. owns-insert_old name cid (ids n) o p d found ∙ h.new n;
    different = h.different;
  }

  pub new_cursor :
      (name : String) (o : ℤ) (cur : Cursor T)
      → has_key name d ≡ false
      → IsOwned (insert name (ids 0, o) d) (insert (ids 0) cur store) (λ n. ids (n + 1))
  new_cursor name o cur free = record {
    names = insert-IsDict name (ids 0, o) d h.names;
    apart = IsApart-insert_new name (ids 0) o d free (h.new 0) h.apart;
    stored = λ c. ground (
      arith,
      has_key-insert (ids 0) c cur store,
      h.stored c,
      owns-insert_new name (ids 0) c o d free,
    );
    new = λ n. ground (
      arith,
      owns-insert_new name (ids 0) (ids (n + 1)) o d free,
      h.different 0 (n + 1),
      h.new (n + 1),
    );
    different = λ m n ne. h.different (m + 1) (n + 1) (omega arith);
  }

  pub closed_cursor :
      (name cid : String) (p : ℤ)
      → lookup name d ≡ some (cid, p)
      → IsOwned (erase name d) (erase cid store) ids
  closed_cursor name cid p found = record {
    names = erase-IsDict name d h.names;
    apart = IsApart-erase name d h.apart;
    stored = λ c. ground (
      arith,
      has_key-erase_iff cid c store,
      h.stored c,
      owns-erase name cid c p d h.names h.apart found,
    );
    new = λ n. owns-erase-false name (ids n) d (h.new n);
    different = h.different;
  }

  pub all_closed : IsOwned [] (close_each d store) ids
  all_closed = record {
    names = tt;
    apart = tt;
    stored = λ c. ground (arith, has_key-close_each d store c, h.stored c);
    new = λ n. refl;
    different = h.different;
  }

  -- What the connection has a name for is there.
  pub has_table :
      (name cid : String) (p : ℤ) → lookup name d ≡ some (cid, p) → has_key cid store ≡ true
  has_table name cid p found = h.stored cid ∙ owns_found name cid p d found
