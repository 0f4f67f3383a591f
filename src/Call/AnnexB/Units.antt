-- ===== src/Call/AnnexB/Units.antt =====
-- The units that `SplitAnnexB` of internal/call/annexb.go cuts.
use mathlib.Core.List.{append-nil}
use whatsmeow_gateway.Base.{
  ℕ, zero, suc, ◌+◌, ◌-◌, ◌≤◌, ◌<◌, List, [], ◌∷◌, ◌++◌, Bool, false, ◌&&◌, ◌||◌, ltb, length, take,
  drop, ◌≡◌, refl, sym, ap, ◌∙◌, arith, ◌⊎◌, inl, inr, All, Bool-cases, ltb→lt, take-append-drop,
  length-drop,
}
use whatsmeow_gateway.Call.Outbound.Playing.{joined}
use whatsmeow_gateway.Call.AnnexB.{
  NalStart, is_long_code, is_short_code, start_at, nal_starts, is_slice, boundary, slice, cut_units,
  units_from, split_annex_b,
}

-- The starts lie in order between two offsets.
abbrev Ascending : ℕ → ℕ → List NalStart → Type 0
Ascending from until [] = from ≤ until
Ascending from until (nal ∷ nals) = (from ≤ nal.offset) × Ascending nal.offset until nals

Ascending-earlier :
    (from later until : ℕ) (nals : List NalStart)
    → from ≤ later
    → Ascending later until nals
    → Ascending from until nals
Ascending-earlier from later until [] le h = omega (arith, le, h)
Ascending-earlier from later until (nal ∷ nals) le (h, k) = (omega (arith, le, h), k)

start_at-Ascending :
    (i until : ℕ) (rest : List ℕ) (later : List NalStart)
    → Ascending i until later
    → Ascending i until (start_at i rest later)
start_at-Ascending i until [] later h = first later h
  where
    first : (later : List NalStart) → Ascending i until later → i ≤ until
    first [] h = h
    first (nal ∷ later) (le, h) = go nal.offset later le h
      where
        go : (o : ℕ) (later : List NalStart) → i ≤ o → Ascending o until later → i ≤ until
        go o [] le h = omega (arith, le, h)
        go o (nal ∷ later) le (k, h) = go nal.offset later (omega (arith, le, k)) h
start_at-Ascending i until (header ∷ rest) later h = (omega arith, h)

nal_starts-Ascending :
    (i until : ℕ) (stream : List ℕ)
    → i + length stream ≡ until
    → Ascending i until (nal_starts i stream)
unfolding nal_starts
nal_starts-Ascending i until [] e = omega (arith, e)
nal_starts-Ascending i until (a ∷ []) e = omega (arith, e)
nal_starts-Ascending i until (a ∷ b ∷ []) e = omega (arith, e)
nal_starts-Ascending i until (a ∷ b ∷ c ∷ []) e = omega (arith, e)
nal_starts-Ascending i until (a ∷ b ∷ c ∷ d ∷ rest) e =
    let after_long =
      Ascending-earlier i (i + 4) until (nal_starts (i + 4) rest) (omega arith)
        (nal_starts-Ascending (i + 4) until rest (omega (arith, e))) in
    let after_short =
      Ascending-earlier i (i + 3) until (nal_starts (i + 3) (d ∷ rest)) (omega arith)
        (nal_starts-Ascending (i + 3) until (d ∷ rest) (omega (arith, e))) in
    let next =
      Ascending-earlier i (i + 1) until (nal_starts (i + 1) (b ∷ c ∷ d ∷ rest)) (omega arith)
        (nal_starts-Ascending (i + 1) until (b ∷ c ∷ d ∷ rest) (omega (arith, e))) in
    elim (Bool-cases (is_long_code a b c d)) [
      | inl h ↦ rw h (start_at-Ascending i until rest _ after_long)
      | inr h ↦ rw h (elim (Bool-cases (is_short_code a b c)) [
        | inl k ↦ rw k (start_at-Ascending i until (d ∷ rest) _ after_short)
        | inr k ↦ rw k next
      ])
    ]

drop-nil : (n : ℕ) → drop {A = ℕ} n [] ≡ []
drop-nil zero = refl
drop-nil (suc n) = refl

drop-drop : (n k m : ℕ) (xs : List ℕ) → m ≡ k + n → drop n (drop k xs) ≡ drop m xs
drop-drop n zero m xs e = ap (λ j. drop j xs) (omega (arith, e))
drop-drop n (suc k) zero xs e = absurd (omega (arith, e))
drop-drop n (suc k) (suc m) [] e = drop-nil n
drop-drop n (suc k) (suc m) (x ∷ xs) e = drop-drop n k m xs (omega (arith, e))

take-all : (n : ℕ) (xs : List ℕ) → length xs ≤ n → take n xs ≡ xs
take-all zero [] h = refl
take-all zero (x ∷ xs) h = absurd (omega (arith, h))
take-all (suc n) [] h = refl
take-all (suc n) (x ∷ xs) h = ap (◌∷◌ x) (take-all n xs (omega (arith, h)))

drop-all : (n : ℕ) (xs : List ℕ) → length xs ≤ n → drop n xs ≡ []
drop-all zero [] h = refl
drop-all zero (x ∷ xs) h = absurd (omega (arith, h))
drop-all (suc n) [] h = refl
drop-all (suc n) (x ∷ xs) h = drop-all n xs (omega (arith, h))

length-slice :
    (from until : ℕ) (xs : List ℕ)
    → from < until
    → until ≤ length xs
    → 1 ≤ length (slice from until xs)
length-slice from until xs h k =
    some_left (until - from) (drop from xs) (omega (arith, h))
      (omega (arith, h, k, length-drop from xs))
  where
    some_left : (n : ℕ) (ys : List ℕ) → 1 ≤ n → 1 ≤ length ys → 1 ≤ length (take n ys)
    some_left zero ys h k = h
    some_left (suc n) [] h k = k
    some_left (suc n) (y ∷ ys) h k = omega arith

slice-append :
    (from until : ℕ) (xs : List ℕ)
    → from ≤ until
    → slice from until xs ++ drop until xs ≡ drop from xs
slice-append from until xs h =
    ap (λ l. slice from until xs ++ l)
      (sym (drop-drop (until - from) from until xs (omega (arith, h))))
    ∙ take-append-drop (until - from) (drop from xs)

abbrev Cuts : List ℕ → ℕ → List (List ℕ) → Type 0
Cuts stream from units = (joined units ≡ drop from stream) × All (λ unit. 1 ≤ length unit) units

Ascending-le : (from until : ℕ) (nals : List NalStart) → Ascending from until nals → from ≤ until
Ascending-le from until [] h = h
Ascending-le from until (nal ∷ nals) (le, h) =
    omega (arith, le, Ascending-le nal.offset until nals h)

cut_units-Cuts :
    (stream : List ℕ) (from : ℕ) (has_slice : Bool) (nals : List NalStart)
    → Ascending from (length stream) nals
    → Cuts stream from (cut_units stream from has_slice nals)
unfolding cut_units
cut_units-Cuts stream from has_slice [] h = elim (Bool-cases (ltb from (length stream))) [
  | inl e ↦ rw e (
    append-nil _
        ∙ take-all (length stream - from) (drop from stream)
            (omega (arith, length-drop from stream)),
    (length-slice from (length stream) stream (ltb→lt from (length stream) e) (omega arith), tt),
  )
  | inr e ↦ rw e (sym (drop-all from stream (ground (arith, e))), tt)
]
cut_units-Cuts stream from has_slice (nal ∷ nals) (le, h) =
    let (e, some_each) = cut_units-Cuts stream nal.offset (is_slice nal.nal_type) nals h in
    elim (Bool-cases (boundary nal.nal_type has_slice && ltb from nal.offset)) [
      | inl f ↦ rw f (
        ap (λ l. slice from nal.offset stream ++ l) e ∙ slice-append from nal.offset stream le,
        (
          length-slice from nal.offset stream (ground (arith, f))
              (Ascending-le nal.offset (length stream) nals h),
          some_each,
        ),
      )
      | inr f ↦ rw f (
          cut_units-Cuts stream from (has_slice || is_slice nal.nal_type) nals
            (Ascending-earlier from nal.offset (length stream) nals le h))
    ]

-- A stream with a start code is cut without loss: the units, none of them empty, make up the stream
-- from its first start code on. A stream without one gives no unit.
pub split_annex_b-lossless :
    (stream : List ℕ)
    → ((nal_starts 0 stream ≡ []) × (split_annex_b stream ≡ []))
      ⊎ ((first : NalStart) × (later : List NalStart) × (nal_starts 0 stream ≡ first ∷ later)
          × (joined (split_annex_b stream) ≡ drop first.offset stream)
          × All (λ unit. 1 ≤ length unit) (split_annex_b stream))
unfolding split_annex_b units_from
split_annex_b-lossless stream =
    go (nal_starts 0 stream) (nal_starts-Ascending 0 (length stream) stream (omega arith))
  where
    go :
        (starts : List NalStart)
        → Ascending 0 (length stream) starts
        → ((starts ≡ []) × (units_from stream starts ≡ []))
          ⊎ ((first : NalStart) × (later : List NalStart) × (starts ≡ first ∷ later)
              × (joined (units_from stream starts) ≡ drop first.offset stream)
              × All (λ unit. 1 ≤ length unit) (units_from stream starts))
    go [] h = inl (refl, refl)
    go (first ∷ later) (le, h) =
        let (cut, each) =
          cut_units-Cuts stream first.offset false (first ∷ later) (omega arith, h) in
        inr (first, later, refl, cut, each)
