-- ===== src/Delta/Channel.antt =====
-- Lemmas on one channel of the store: what a rewind keeps, and which tables it names as touched.
use ryu_db.Common.{
  ℕ, ◌≤◌, String, ◌≡◌, refl, Bool, false, not, ◌||◌, List, [], ◌∷◌, ◌∙◌, arith, leb, ◌==◌, eq_iff,
  length, keep_if, All, non_empty, if◌then◌else◌,
}
use ryu_db.Common.Dict.{
  Dict, IsDict, IsSetList, contains, get_list, has_key, set_add, contains-set_add,
  set_add-IsSetList, get_list_missing,
}
use ryu_db.Delta.{rewind_channel, drop_empty}

module _ {ℓ} {E : Type ℓ} where
  -- Whether a rewind to `ts` drops an entry of the list.
  abbrev pub loses : (E → ℕ) → ℕ → List E → Bool
  loses ts_of ts l = not (length (keep_if (λ e. leb (ts_of e) ts) l) == length l)

module _ {ℓ} {E : Type ℓ} (ts_of : E → ℕ) (ts : ℕ) where
  pub get_list-rewind_channel :
      (k : String) (d : Dict (List E)) (touched : List String)
      → get_list k (rewind_channel ts_of ts d touched).0
        ≡ keep_if (λ e. leb (ts_of e) ts) (get_list k d)
  unfolding rewind_channel
  get_list-rewind_channel k [] touched = refl
  get_list-rewind_channel k ((j, l) ∷ d) touched = ground (
    arith,
    get_list-rewind_channel k d (
        if length (keep_if (λ e. leb (ts_of e) ts) l) == length l
        then touched
        else set_add j touched),
  )

  pub has_key-rewind_channel :
      (k : String) (d : Dict (List E)) (touched : List String)
      → has_key k (rewind_channel ts_of ts d touched).0 ≡ has_key k d
  unfolding rewind_channel
  has_key-rewind_channel k [] touched = refl
  has_key-rewind_channel k ((j, l) ∷ d) touched = ground (
    arith,
    has_key-rewind_channel k d (
        if length (keep_if (λ e. leb (ts_of e) ts) l) == length l
        then touched
        else set_add j touched),
  )

  pub rewind_channel-IsDict :
      (d : Dict (List E)) (touched : List String)
      → IsDict d
      → IsDict (rewind_channel ts_of ts d touched).0
  unfolding rewind_channel
  rewind_channel-IsDict [] touched h = tt
  rewind_channel-IsDict ((j, l) ∷ d) touched h =
      let touched' : List String =
        if length (keep_if (λ e. leb (ts_of e) ts) l) == length l
        then touched
        else set_add j touched in
      (has_key-rewind_channel j d touched' ∙ h.0, rewind_channel-IsDict d touched' h.1)

  pub contains-rewind_channel :
      (k : String) (d : Dict (List E)) (touched : List String)
      → IsDict d
      → contains k (rewind_channel ts_of ts d touched).1
        ≡ (contains k touched || loses ts_of ts (get_list k d))
  unfolding rewind_channel
  contains-rewind_channel k [] touched h = ground arith
  contains-rewind_channel k ((j, l) ∷ d) touched h = ground (
    arith,
    eq_iff j k,
    contains-set_add k j touched,
    get_list_missing k d,
    contains-rewind_channel k d touched h.1,
    contains-rewind_channel k d (set_add j touched) h.1,
  )

  pub rewind_channel-IsSetList :
      (d : Dict (List E)) (touched : List String)
      → IsSetList touched
      → IsSetList (rewind_channel ts_of ts d touched).1
  unfolding rewind_channel
  rewind_channel-IsSetList [] touched u = u
  rewind_channel-IsSetList ((j, l) ∷ d) touched u = ground (
    arith,
    set_add-IsSetList j touched u,
    rewind_channel-IsSetList d touched,
    rewind_channel-IsSetList d (set_add j touched),
  )

module _ {ℓ} {E : Type ℓ} where
  has_key-drop_empty :
      (k : String) (d : Dict (List E)) → has_key k d ≡ false → has_key k (drop_empty d) ≡ false
  unfolding drop_empty
  has_key-drop_empty k [] h = refl
  has_key-drop_empty k ((j, l) ∷ d) h = ground (arith, has_key-drop_empty k d)

  pub get_list-drop_empty :
      (k : String) (d : Dict (List E)) → IsDict d → get_list k (drop_empty d) ≡ get_list k d
  unfolding drop_empty
  get_list-drop_empty k [] h = refl
  get_list-drop_empty k ((j, []) ∷ d) h =
      ground (arith, eq_iff j k, get_list-drop_empty k d h.1, get_list_missing k d)
  get_list-drop_empty k ((j, e ∷ l) ∷ d) h = ground (arith, get_list-drop_empty k d h.1)

  pub drop_empty-IsDict : (d : Dict (List E)) → IsDict d → IsDict (drop_empty d)
  unfolding drop_empty
  drop_empty-IsDict [] h = tt
  drop_empty-IsDict ((j, []) ∷ d) h = drop_empty-IsDict d h.1
  drop_empty-IsDict ((j, e ∷ l) ∷ d) h = (has_key-drop_empty j d h.0, drop_empty-IsDict d h.1)

  -- After `drop_empty` a key stands for a list that has entries.
  pub has_key-drop_empty_iff :
      (k : String) (d : Dict (List E))
      → IsDict d
      → has_key k (drop_empty d) ≡ non_empty (get_list k d)
  unfolding drop_empty
  has_key-drop_empty_iff k [] h = refl
  has_key-drop_empty_iff k ((j, []) ∷ d) h =
      ground (arith, eq_iff j k, has_key-drop_empty_iff k d h.1, get_list_missing k d)
  has_key-drop_empty_iff k ((j, e ∷ l) ∷ d) h = ground (arith, has_key-drop_empty_iff k d h.1)

-- A rewind loses nothing of a list exactly if every entry lies at or before `ts`.
module _ {ℓ} {E : Type ℓ} (ts_of : E → ℕ) (ts : ℕ) where
  length-keep_if : (p : E → Bool) (l : List E) → length (keep_if p l) ≤ length l
  length-keep_if p [] = omega arith
  length-keep_if p (e ∷ l) = ground (arith, length-keep_if p l)

  pub loses-false : (l : List E) → loses ts_of ts l ≡ false → All (λ e. ts_of e ≤ ts) l
  loses-false [] h = tt
  loses-false (e ∷ l) h = ground (arith, length-keep_if (λ e. leb (ts_of e) ts) l, loses-false l)
