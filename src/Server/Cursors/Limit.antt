-- ===== src/Server/Cursors/Limit.antt =====
-- How many cursors a connection has.
use ryu_db.Common.{
  ℕ, ◌+◌, ◌≤◌, String, ◌≡◌, refl, ◌⊎◌, inl, inr, Bool, true, false, List, [], ◌∷◌, length, leb,
  Result, ok, err, protocol_error, arith, Bool-cases, if◌then◌else◌,
}
use ryu_db.Common.Dict.{Dict, insert, erase}
use ryu_db.Server.Cursors.{Cursor, open_cursor, close_cursor}

module _ {T : Type 0} (num_rows : T → ℕ) (limit : ℕ) (cid : String) (t : T) (sql : String)
    (d : Dict (Cursor T)) where
  pub open_cursor_cases :
      (open_cursor num_rows limit cid t sql d ≡ (err protocol_error, d))
      ⊎ (open_cursor num_rows limit cid t sql d
          ≡ (ok cid, insert cid (record { table = t; total = num_rows t; sql = sql }) d))
  unfolding open_cursor
  open_cursor_cases = elim (Bool-cases (leb limit (length d))) [
    | inl full ↦ inl (rw full refl)
    | inr room ↦ inr (rw room refl)
  ]

-- What one connection does with its cursors.
pub data Act (T : Type 0) : Type 0 where
  opens : String → T → String → Act T
  closes : String → Act T

module _ {T : Type 0} (num_rows : T → ℕ) (limit : ℕ) where
  unfoldable pub act : Act T → Dict (Cursor T) → Dict (Cursor T)
  act (Act.opens cid t sql) d = (open_cursor num_rows limit cid t sql d).1
  act (Act.closes cid) d = (close_cursor cid d).1

  unfoldable pub act_all : List (Act T) → Dict (Cursor T) → Dict (Cursor T)
  act_all [] d = d
  act_all (a ∷ acts) d = act_all acts (act a d)

length-insert :
    {V : Type 0} (k : String) (v : V) (d : Dict V) → length (insert k v d) ≤ length d + 1
length-insert k v [] = omega arith
length-insert k v ((j, w) ∷ d) = ground (arith, length-insert k v d)

length-erase : {V : Type 0} (k : String) (d : Dict V) → length (erase k d) ≤ length d
length-erase k [] = omega arith
length-erase k ((j, w) ∷ d) = ground (arith, length-erase k d)

module _ {T : Type 0} (num_rows : T → ℕ) (limit : ℕ) where
  choice-bounds :
      (b : Bool) (x y : Result String × Dict (Cursor T))
      → length x.1 ≤ limit
      → (b ≡ false → length y.1 ≤ limit)
      → length (if b then x else y).1 ≤ limit
  choice-bounds true x y hx hy = hx
  choice-bounds false x y hx hy = hy refl

  act-bounds :
      (a : Act T) (d : Dict (Cursor T)) → length d ≤ limit → length (act num_rows limit a d) ≤ limit
  unfolding act open_cursor close_cursor
  act-bounds (Act.opens cid t sql) d h =
      let new = insert cid (record { table = t; total = num_rows t; sql = sql }) d in
      choice-bounds (leb limit (length d)) (err protocol_error, d) (ok cid, new) h
        (λ room.
          ground (
            arith,
            room,
            length-insert cid (record { table = t; total = num_rows t; sql = sql }) d,
          ))
  act-bounds (Act.closes cid) d h = omega (arith, length-erase cid d)

  -- A connection that opens and closes cursors as it likes never has more of them than the limit.
  pub act_all-bounds :
      (acts : List (Act T)) (d : Dict (Cursor T))
      → length d ≤ limit
      → length (act_all num_rows limit acts d) ≤ limit
  unfolding act_all
  act_all-bounds [] d h = h
  act_all-bounds (a ∷ acts) d h = act_all-bounds acts (act num_rows limit a d) (act-bounds a d h)
