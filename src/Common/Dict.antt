-- ===== src/Common/Dict.antt =====
-- Python's `dict` with text keys, in insertion order: a write to a key that is there keeps its place.
use Prim.Native.String.{String}
use mathlib.Core.Path.{◌≡◌, refl}
use mathlib.Core.Bool.{Bool, false, not, ◌&&◌, ◌||◌}
use mathlib.Core.Option.{Option, none, some}
use mathlib.Core.List.{List, [], ◌∷◌, ◌++◌}
use native.Mathlib.Omega.{arith}
use text.Mathlib.Text.{◌==◌}
use text.Mathlib.TextEquality.{eq_iff}
use ryu_db.Common.Tests.{if◌then◌else◌}
use ryu_db.Common.Lists.{non_empty}

-- `x in l`, for a list or a set of texts
abbrev pub contains : String → List String → Bool
contains k [] = false
contains k (j ∷ js) = j == k || contains k js

abbrev pub Dict {ℓ} : Type ℓ → Type ℓ
Dict V = List (String × V)

module _ {ℓ} {V : Type ℓ} where
  -- d.get(k)
  abbrev pub lookup : String → Dict V → Option V
  lookup k [] = none
  lookup k ((j, v) ∷ d) = if j == k then some v else lookup k d

  -- d[k] = v
  abbrev pub insert : String → V → Dict V → Dict V
  insert k v [] = (k, v) ∷ []
  insert k v ((j, w) ∷ d) = if j == k then (j, v) ∷ d else (j, w) ∷ insert k v d

  -- d.pop(k, None)
  abbrev pub erase : String → Dict V → Dict V
  erase k [] = []
  erase k ((j, v) ∷ d) = let rest = erase k d in if j == k then rest else (j, v) ∷ rest

  -- k in d
  abbrev pub has_key : String → Dict V → Bool
  has_key k [] = false
  has_key k ((j, v) ∷ d) = j == k || has_key k d

  -- list(d)
  abbrev pub keys : Dict V → List String
  keys [] = []
  keys ((j, v) ∷ d) = j ∷ keys d

  -- Each key once.
  abbrev pub IsDict : Dict V → Type 0
  IsDict [] = Unit {0}
  IsDict ((j, v) ∷ d) = (has_key j d ≡ false) × IsDict d

-- s.add(k), on a set kept as a list
abbrev pub set_add : String → List String → List String
set_add k ks = if contains k ks then ks else ks ++ k ∷ []

-- s.update(js)
abbrev pub set_update : List String → List String → List String
set_update ks [] = ks
set_update ks (j ∷ js) = set_update (set_add j ks) js

module _ {ℓ} {E : Type ℓ} where
  -- d.get(k) or []
  abbrev pub get_list : String → Dict (List E) → List E
  get_list k [] = []
  get_list k ((j, l) ∷ d) = if j == k then l else get_list k d

  -- d.setdefault(k, []).append(e)
  abbrev pub append_to : String → E → Dict (List E) → Dict (List E)
  append_to k e d = insert k (get_list k d ++ e ∷ []) d

  -- {k for k, l in d.items() if l}
  abbrev pub live_keys : Dict (List E) → List String
  live_keys [] = []
  live_keys ((j, l) ∷ d) = let rest = live_keys d in if non_empty l then j ∷ rest else rest

-- A list of texts in which each stands once: what iterating over a set gives.
abbrev pub IsSetList : List String → Type 0
IsSetList [] = Unit {0}
IsSetList (k ∷ ks) = (contains k ks ≡ false) × IsSetList ks

module _ {ℓ} {V : Type ℓ} where
  pub lookup-insert :
      (k j : String) (v : V) (d : Dict V)
      → lookup j (insert k v d) ≡ (if k == j then some v else lookup j d)
  lookup-insert k j v [] = refl
  lookup-insert k j v ((i, w) ∷ d) =
      ground (arith, eq_iff k j, eq_iff i k, eq_iff i j, lookup-insert k j v d)

  pub lookup-erase :
      (k j : String) (d : Dict V) → lookup j (erase k d) ≡ (if k == j then none else lookup j d)
  lookup-erase k j [] = ground arith
  lookup-erase k j ((i, w) ∷ d) =
      ground (arith, eq_iff k j, eq_iff i k, eq_iff i j, lookup-erase k j d)

  pub has_key-insert :
      (k j : String) (v : V) (d : Dict V) → has_key j (insert k v d) ≡ (k == j || has_key j d)
  has_key-insert k j v [] = refl
  has_key-insert k j v ((i, w) ∷ d) =
      ground (arith, eq_iff k j, eq_iff i k, eq_iff i j, has_key-insert k j v d)

  pub insert-IsDict : (k : String) (v : V) (d : Dict V) → IsDict d → IsDict (insert k v d)
  insert-IsDict k v [] h = (refl, tt)
  insert-IsDict k v ((i, w) ∷ d) h =
      ground (arith, eq_iff i k, eq_iff k i, has_key-insert k i v d, insert-IsDict k v d h.1)

  pub lookup_missing : (k : String) (d : Dict V) → has_key k d ≡ false → lookup k d ≡ none
  lookup_missing k [] h = refl
  lookup_missing k ((i, w) ∷ d) h = ground (arith, lookup_missing k d)

  pub has_key-erase :
      (k j : String) (d : Dict V) → has_key j d ≡ false → has_key j (erase k d) ≡ false
  has_key-erase k j [] h = refl
  has_key-erase k j ((i, w) ∷ d) h = ground (arith, has_key-erase k j d)

  pub has_key-erase_iff :
      (k j : String) (d : Dict V) → has_key j (erase k d) ≡ (not (k == j) && has_key j d)
  has_key-erase_iff k j [] = ground arith
  has_key-erase_iff k j ((i, w) ∷ d) =
      ground (arith, eq_iff k j, eq_iff i k, eq_iff i j, has_key-erase_iff k j d)

  pub has_key-none : (k : String) (d : Dict V) → lookup k d ≡ none → has_key k d ≡ false
  has_key-none k [] h = refl
  has_key-none k ((i, w) ∷ d) h = ground (arith, has_key-none k d)

  pub erase-IsDict : (k : String) (d : Dict V) → IsDict d → IsDict (erase k d)
  erase-IsDict k [] h = tt
  erase-IsDict k ((i, w) ∷ d) h = ground (arith, has_key-erase k i d, erase-IsDict k d h.1)

  pub contains_keys : (k : String) (d : Dict V) → contains k (keys d) ≡ has_key k d
  contains_keys k [] = refl
  contains_keys k ((j, v) ∷ d) = ground (arith, contains_keys k d)

module _ {ℓ} {E : Type ℓ} where
  pub get_list-insert :
      (k j : String) (l : List E) (d : Dict (List E))
      → get_list j (insert k l d) ≡ (if k == j then l else get_list j d)
  get_list-insert k j l [] = refl
  get_list-insert k j l ((i, w) ∷ d) =
      ground (arith, eq_iff k j, eq_iff i k, eq_iff i j, get_list-insert k j l d)

  pub get_list-append_to :
      (k j : String) (e : E) (d : Dict (List E))
      → get_list j (append_to k e d) ≡ (if k == j then get_list j d ++ e ∷ [] else get_list j d)
  get_list-append_to k j e d =
      ground (arith, eq_iff k j, get_list-insert k j (get_list k d ++ e ∷ []) d)

  pub get_list-erase :
      (k j : String) (d : Dict (List E))
      → get_list j (erase k d) ≡ (if k == j then [] else get_list j d)
  get_list-erase k j [] = ground arith
  get_list-erase k j ((i, w) ∷ d) =
      ground (arith, eq_iff k j, eq_iff i k, eq_iff i j, get_list-erase k j d)

  pub get_list_missing : (k : String) (d : Dict (List E)) → has_key k d ≡ false → get_list k d ≡ []
  get_list_missing k [] h = refl
  get_list_missing k ((i, w) ∷ d) h = ground (arith, get_list_missing k d)

  contains-live_keys_missing :
      (k : String) (d : Dict (List E)) → has_key k d ≡ false → contains k (live_keys d) ≡ false
  contains-live_keys_missing k [] h = refl
  contains-live_keys_missing k ((i, w) ∷ d) h = ground (arith, contains-live_keys_missing k d)

  pub contains-live_keys :
      (k : String) (d : Dict (List E))
      → IsDict d
      → contains k (live_keys d) ≡ non_empty (get_list k d)
  contains-live_keys k [] h = refl
  contains-live_keys k ((i, w) ∷ d) h = ground (
    arith,
    eq_iff i k,
    contains-live_keys k d h.1,
    contains-live_keys_missing i d h.0,
    contains-live_keys_missing k d,
  )

  pub live_keys-IsSetList : (d : Dict (List E)) → IsDict d → IsSetList (live_keys d)
  live_keys-IsSetList [] h = tt
  live_keys-IsSetList ((i, w) ∷ d) h =
      ground (arith, live_keys-IsSetList d h.1, contains-live_keys_missing i d h.0)

pub contains-append :
    (k : String) (ks js : List String) → contains k (ks ++ js) ≡ (contains k ks || contains k js)
contains-append k [] js = refl
contains-append k (i ∷ ks) js = ground (arith, contains-append k ks js)

pub contains-set_add :
    (k j : String) (ks : List String) → contains k (set_add j ks) ≡ (j == k || contains k ks)
contains-set_add k j ks = ground (arith, eq_iff j k, contains-append k ks (j ∷ []))

IsSetList-snoc :
    (k : String) (ks : List String)
    → contains k ks ≡ false
    → IsSetList ks
    → IsSetList (ks ++ k ∷ [])
IsSetList-snoc k [] h u = (refl, tt)
IsSetList-snoc k (i ∷ ks) h u =
    ground (arith, eq_iff i k, eq_iff k i, contains-append i ks (k ∷ []), IsSetList-snoc k ks)

pub set_add-IsSetList : (k : String) (ks : List String) → IsSetList ks → IsSetList (set_add k ks)
set_add-IsSetList k ks u = ground (arith, IsSetList-snoc k ks)

pub contains-set_update :
    (k : String) (ks js : List String)
    → contains k (set_update ks js) ≡ (contains k ks || contains k js)
contains-set_update k ks [] = ground arith
contains-set_update k ks (j ∷ js) =
    ground (arith, contains-set_update k (set_add j ks) js, contains-set_add k j ks)

pub set_update-IsSetList : (ks js : List String) → IsSetList ks → IsSetList (set_update ks js)
set_update-IsSetList ks [] u = u
set_update-IsSetList ks (j ∷ js) u =
    set_update-IsSetList (set_add j ks) js (set_add-IsSetList j ks u)
