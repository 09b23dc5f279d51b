-- ===== src/Wal/Stable.antt =====
-- Replay of an arbitrary file (`WAL.replay`): what it keeps, it keeps for good.
use ryu_db.Common.{
  ℕ, zero, suc, ◌+◌, ◌%◌, ◌^◌, ◌≤◌, ◌<◌, ◌≡◌, refl, sym, ap, ap₂, ◌∙◌, ◌⊎◌, inl, inr, none, some,
  List, [], ◌∷◌, ◌++◌, arith, length, take, drop, Error, Result, ok, err, ◌==◌, if◌then◌else◌,
  length-append, append_assoc, append-nil, take-append-drop, length-take, length-drop, Option-cases,
  take-append_left, drop-append_left,
}
use ryu_db.Wal.Bytes.{Bytes, from_le}
use ryu_db.Wal.Codec.{Serial, Entry, parse_payload}
use ryu_db.Wal.File.{next_record, replay_loop, replay_file}
use ryu_db.Wal.Records.{next_record_parts}
use ryu_db.Wal.Recovery.{cut_at}
use ryu_db.Wal.Scan.{next_record_empty, replay_loop_step, replay_loop_stop, replay_loop_bad}

drop-nil {ℓ} : {A : Type ℓ} (n : ℕ) → drop {A = A} n [] ≡ []
drop-nil zero = refl
drop-nil (suc n) = refl

drop-drop {ℓ} : {A : Type ℓ} (n m : ℕ) (xs : List A) → drop m (drop n xs) ≡ drop (n + m) xs
drop-drop zero m xs = ap (λ k. drop k xs) (let e : m ≡ 0 + m = omega arith in e)
drop-drop (suc n) m [] = drop-nil m ∙ sym (drop-nil (suc n + m))
drop-drop (suc n) m (x ∷ xs) =
    drop-drop n m xs
    ∙ ap (λ k. drop k (x ∷ xs)) (let e : suc (n + m) ≡ suc n + m = omega arith in e)

next_record-inv :
    (crc32 : Bytes → ℕ) (b payload rest : Bytes)
    → next_record crc32 b ≡ some (payload, rest)
    → (8 ≤ length b)
      × (from_le (take 4 b) ≤ length (drop 8 b))
      × (payload ≡ take (from_le (take 4 b)) (drop 8 b))
      × (rest ≡ drop (from_le (take 4 b)) (drop 8 b))
      × (crc32 payload % 2 ^ 32 ≡ from_le (take 4 (drop 4 b)))
unfolding next_record
next_record-inv crc32 b payload rest h = ground arith

-- A record that is read out of a file is read the same way whatever follows it.
next_record-local :
    (crc32 : Bytes → ℕ) (b payload rest : Bytes)
    → next_record crc32 b ≡ some (payload, rest)
    → (pre : Bytes) × (b ≡ pre ++ rest)
      × (length pre ≡ 8 + length payload)
      × ((t : Bytes) → next_record crc32 (pre ++ t) ≡ some (payload, t))
next_record-local crc32 b payload rest h = (h₁ ++ (h₂ ++ payload), whole, size, local)
  where
    facts :
        (8 ≤ length b)
        × (from_le (take 4 b) ≤ length (drop 8 b))
        × (payload ≡ take (from_le (take 4 b)) (drop 8 b))
        × (rest ≡ drop (from_le (take 4 b)) (drop 8 b))
        × (crc32 payload % 2 ^ 32 ≡ from_le (take 4 (drop 4 b)))
    facts = next_record-inv crc32 b payload rest h

    h₁ : Bytes
    h₁ = take 4 b

    h₂ : Bytes
    h₂ = take 4 (drop 4 b)

    four₁ : length h₁ ≡ 4
    four₁ = omega (arith, length-take 4 b, facts.0)

    four₂ : length h₂ ≡ 4
    four₂ = omega (arith, length-take 4 (drop 4 b), length-drop 4 b, facts.0)

    len_payload : length payload ≡ from_le h₁
    len_payload =
        ap length facts.2 ∙ omega (arith, length-take (from_le (take 4 b)) (drop 8 b), facts.1)

    size : length (h₁ ++ (h₂ ++ payload)) ≡ 8 + length payload
    size = omega (arith, length-append h₁ (h₂ ++ payload), length-append h₂ payload, four₁, four₂)

    body : payload ++ rest ≡ drop 4 (drop 4 b)
    body =
        ap₂ (λ (x y : Bytes). x ++ y) facts.2 facts.3
        ∙ take-append-drop (from_le (take 4 b)) (drop 8 b)
        ∙ sym (drop-drop 4 4 b)

    regroup : (t : Bytes) → (h₁ ++ (h₂ ++ payload)) ++ t ≡ h₁ ++ (h₂ ++ (payload ++ t))
    regroup t = append_assoc h₁ (h₂ ++ payload) t ∙ ap (λ x. h₁ ++ x) (append_assoc h₂ payload t)

    whole : b ≡ (h₁ ++ (h₂ ++ payload)) ++ rest
    whole = sym (
        regroup rest
        ∙ ap (λ x. h₁ ++ (h₂ ++ x)) body
        ∙ ap (λ x. h₁ ++ x) (take-append-drop 4 (drop 4 b))
        ∙ take-append-drop 4 b)

    local : (t : Bytes) → next_record crc32 ((h₁ ++ (h₂ ++ payload)) ++ t) ≡ some (payload, t)
    local t =
        ap (next_record crc32) (regroup t)
        ∙ next_record_parts crc32 h₁ h₂ (payload ++ t) four₁ four₂
        ∙ ground (
          arith,
          length-append payload t,
          take-append_left (from_le h₁) payload t (sym len_payload),
          drop-append_left (from_le h₁) payload t (sym len_payload),
          facts.4,
          len_payload,
        )

Result-cases {ℓ} :
    {A : Type ℓ} (r : Result A) → ((a : A) × (r ≡ ok a)) ⊎ ((e : Error) × (r ≡ err e))
Result-cases (ok a) = inl (a, refl)
Result-cases (err e) = inr (e, refl)

module _ {ℓ} {F : Type ℓ} (s : Serial F) where
  -- `good` is the part of `b` that the loop gets through, with the records `rs`.
  abbrev Splits : Bytes → Bytes → Bytes → List (Entry F) → Type ℓ
  Splits b good rest rs =
      (b ≡ good ++ rest)
      × ((fuel offset : ℕ) (records : List (Entry F))
          → length b ≤ fuel
          → replay_loop s fuel b offset records ≡ (records ++ rs, offset + length good))
      × ((fuel offset : ℕ) (records : List (Entry F))
          → length good ≤ fuel
          → replay_loop s fuel good offset records ≡ (records ++ rs, offset + length good))

  stops :
      (records : List (Entry F)) (offset : ℕ)
      → ◌≡◌ {A = List (Entry F) × ℕ} (records, offset) (records ++ [], offset + 0)
  stops records offset =
      ap₂ (λ (x : List (Entry F)) (y : ℕ). (x, y)) (sym (append-nil records)) (omega arith)

  module _ (pre payload : Bytes) (parsed : List (Entry F)) (size : length pre ≡ 8 + length payload)
      (local : (t : Bytes) → next_record s.crc32 (pre ++ t) ≡ some (payload, t))
      (parses : parse_payload s payload ≡ ok parsed) where
    -- The loop through one more record.
    through :
        (t : Bytes) (rs : List (Entry F)) (g : ℕ)
        → ((fuel offset : ℕ) (records : List (Entry F))
            → length t ≤ fuel
            → replay_loop s fuel t offset records ≡ (records ++ rs, offset + g))
        → (fuel offset : ℕ) (records : List (Entry F)) → length (pre ++ t) ≤ fuel
        → replay_loop s fuel (pre ++ t) offset records
          ≡ (records ++ (parsed ++ rs), offset + (length pre + g))
    through t rs g run zero offset records le = absurd (omega (arith, length-append pre t))
    through t rs g run (suc fuel) offset records le =
        replay_loop_step s fuel (pre ++ t) t payload parsed offset records (local t) parses
        ∙ run fuel (offset + 8 + length payload) (records ++ parsed)
            (omega (arith, length-append pre t))
        ∙ ap₂ (λ (x : List (Entry F)) (y : ℕ). (x, y)) (append_assoc records parsed rs)
            (omega arith)

    extend :
        (b rest good rest' : Bytes) (rs : List (Entry F))
        → b ≡ pre ++ rest
        → Splits rest good rest' rs
        → Splits b (pre ++ good) rest' (parsed ++ rs)
    extend b rest good rest' rs whole (split, run, run_good) = (
      whole ∙ ap (λ x. pre ++ x) split ∙ sym (append_assoc pre good rest'),
      (λ fuel offset records le.
          ap (λ x. replay_loop s fuel x offset records) whole
          ∙ through rest rs (length good) run fuel offset records (omega (arith, ap length whole))
          ∙ ap (λ (y : ℕ). (records ++ (parsed ++ rs), offset + y)) (sym (length-append pre good))),
      (λ fuel offset records le.
          through good rs (length good) run_good fuel offset records le
          ∙ ap (λ (y : ℕ). (records ++ (parsed ++ rs), offset + y)) (sym (length-append pre good))),
    )

  abbrev Split : Bytes → Type ℓ
  Split b = (good : Bytes) × (rest : Bytes) × (rs : List (Entry F)) × Splits b good rest rs

  at_stop : (b : Bytes) → next_record s.crc32 b ≡ none → Split b
  at_stop b stop = (
    [],
    b,
    [],
    (
      refl,
      (λ fuel o r _. replay_loop_stop s fuel b o r stop ∙ stops r o),
      (λ fuel o r _. replay_loop_stop s fuel [] o r (next_record_empty s.crc32) ∙ stops r o),
    ),
  )

  at_bad :
      (b payload rest : Bytes) (e : Error)
      → next_record s.crc32 b ≡ some (payload, rest)
      → parse_payload s payload ≡ err e
      → Split b
  at_bad b payload rest e h bad = (
    [],
    b,
    [],
    (
      refl,
      (λ fuel o r _. replay_loop_bad s fuel b rest payload e o r h bad ∙ stops r o),
      (λ fuel o r _. replay_loop_stop s fuel [] o r (next_record_empty s.crc32) ∙ stops r o),
    ),
  )

  at_record :
      (b payload rest : Bytes) (parsed : List (Entry F))
      → next_record s.crc32 b ≡ some (payload, rest)
      → parse_payload s payload ≡ ok parsed
      → Split rest
      → Split b
  at_record b payload rest parsed h parses (good, rest', rs, later) =
      let (pre, whole, size, local) = next_record-local s.crc32 b payload rest h in
      (
        pre ++ good,
        rest',
        parsed ++ rs,
        extend pre payload parsed size local parses b rest good rest' rs whole later,
      )

  rest_shorter :
      (b payload rest : Bytes)
      → next_record s.crc32 b ≡ some (payload, rest)
      → length rest < length b
  rest_shorter b payload rest h =
      let (pre, whole, size, local) = next_record-local s.crc32 b payload rest h in
      omega (arith, ap length whole, length-append pre rest)

  -- The bound `n` on the length is what the induction is on.
  splits : (n : ℕ) (b : Bytes) → length b < n → Split b
  splits zero b le = absurd (omega arith)
  splits (suc n) b le = elim (Option-cases (next_record s.crc32 b)) [
    | inl stop ↦ at_stop b stop
    | inr ((payload, rest), h) ↦ elim (Result-cases (parse_payload s payload)) [
      | inl (parsed, parses) ↦
          at_record b payload rest parsed h parses
            (splits n rest (omega (arith, rest_shorter b payload rest h)))
      | inr (e, bad) ↦ at_bad b payload rest e h bad
    ]
  ]

  replay_file_split :
      (b good rest : Bytes) (rs : List (Entry F))
      → Splits b good rest rs
      → replay_file s b ≡ (rs, good)
  unfolding replay_file
  replay_file_split b good rest rs (split, run, run_good) =
      ap (λ (p : List (Entry F) × ℕ). (p.0, if p.1 == length b then b else take p.1 b))
        (run (length b) 0 [] (omega arith))
      ∙ ap
          (λ (x : Bytes). (rs, if 0 + length good == length x then x else take (0 + length good) x))
          split
      ∙ ap (λ (x : Bytes). (rs, x)) (cut_at (0 + length good) good rest (omega arith))

  -- Whatever bytes the file holds, replay keeps a prefix of them, and a second replay returns the same
  -- records and leaves the file as it is.
  pub replay_file-stable :
      (b : Bytes)
      → ((rest : Bytes) × (b ≡ (replay_file s b).1 ++ rest))
        × (replay_file s (replay_file s b).1 ≡ replay_file s b)
  replay_file-stable b =
      let (good, rest, rs, sp) = splits (suc (length b)) b (omega arith) in
      let first : replay_file s b ≡ (rs, good) = replay_file_split b good rest rs sp in
      let again : replay_file s good ≡ (rs, good) =
        replay_file_split good good [] rs (sym (append-nil good), sp.2, sp.2) in
      (
        (rest, sp.0 ∙ ap (λ (p : List (Entry F) × Bytes). p.1 ++ rest) (sym first)),
        ap (λ (p : List (Entry F) × Bytes). replay_file s p.1) first ∙ again ∙ sym first,
      )
