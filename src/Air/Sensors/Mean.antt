-- ===== src/Air/Sensors/Mean.antt =====
-- The values that a filter of rhex_air/sensors/sensors.c holds.
use rhex_service.Base.{
  ℕ, ◌+◌, ◌*◌, ◌%◌, ◌^◌, ◌≤◌, ◌<◌, ◌≡◌, refl, sym, ap, ap₂, ◌∙◌, arith, List, [], ◌∷◌, ◌++◌,
  append_assoc, append-nil,
}
use rhex_service.Base.{length, drop, set, length-set, length-append, drop_all, set-middle}
use rhex_service.Base.Int.{pos}
use native.Mathlib.Nat.{add-mul, mul-add-mod_self_right, mod-eq_of_lt}
use rhex_service.Air.Sensors.{FloatOps, Filter, filter_with, sum_from}

module _ {F : Type 0} (o : FloatOps F) (cnt : ℕ) where
  -- The filter after these values, in order.
  unfoldable pub filter_run : List F → Filter F → Filter F
  filter_run [] f = f
  filter_run (v ∷ vs) f = filter_run vs (filter_with o cnt v f).1

  filter_run-append :
      (xs ys : List F) (f : Filter F) → filter_run (xs ++ ys) f ≡ filter_run ys (filter_run xs f)
  unfolding filter_run
  filter_run-append [] ys f = refl
  filter_run-append (x ∷ xs) ys f = filter_run-append xs ys (filter_with o cnt x f).1

  index_run :
      (vs : List F) (f : Filter F)
      → f.index + length vs < 2 ^ 64
      → ((filter_run vs f).index ≡ f.index + length vs)
        × (length (filter_run vs f).values ≡ length f.values)
  unfolding filter_run filter_with
  index_run [] f h = (omega arith, refl)
  index_run (v ∷ vs) f h =
      let (i, l) = index_run vs (filter_with o cnt v f).1 (omega arith) in
      (omega (arith, i), l ∙ length-set f.values (f.index % cnt) v)

  -- Values that fit behind the place `j`.
  filled :
      (vs pre old : List F) (q : ℕ) (f : Filter F)
      → f.values ≡ pre ++ old
      → length vs ≤ length old
      → length pre + length old ≡ cnt
      → f.index ≡ q * cnt + length pre
      → f.index + length vs < 2 ^ 64
      → (filter_run vs f).values ≡ pre ++ (vs ++ drop (length vs) old)
  unfolding filter_run filter_with
  filled [] pre old q f ev hl hc ei hi = ev
  filled (v ∷ vs) pre [] q f ev hl hc ei hi = absurd (omega arith)
  filled (v ∷ vs) pre (x ∷ old) q f ev hl hc ei hi =
      filled vs (pre ++ (v ∷ [])) old q (filter_with o cnt v f).1
        (ap₂ (λ xs j. set xs j v) ev place
          ∙ set-middle pre x old v
          ∙ sym (append_assoc pre (v ∷ []) old))
        (omega arith) (omega (arith, length-append pre (v ∷ [])))
        (omega (arith, length-append pre (v ∷ []))) (omega arith)
      ∙ append_assoc pre (v ∷ []) (vs ++ drop (length vs) old)
    where
      place : f.index % cnt ≡ length pre
      place =
          ap (λ n. n % cnt) ei
          ∙ mul-add-mod_self_right q cnt (length pre)
          ∙ mod-eq_of_lt (omega (arith, hc, hl))

  -- A whole turn of the array.
  turn :
      (vs : List F) (q : ℕ) (f : Filter F)
      → length vs ≡ cnt
      → length f.values ≡ cnt
      → f.index ≡ q * cnt
      → f.index + cnt < 2 ^ 64
      → (filter_run vs f).values ≡ vs
  turn vs q f hv hf ei hi =
      filled vs [] f.values q f refl (omega (arith, hv, hf)) (omega (arith, hf)) (omega (arith, ei))
        (omega (arith, hv, hi))
      ∙ ap (λ xs. vs ++ xs) (drop_all (length vs) f.values (omega (arith, hv, hf)))
      ∙ append-nil vs

  -- Fewer values on a turn that is not whole.
  newest :
      (recent block : List F) (val : F) (q : ℕ) (f : Filter F)
      → f.values ≡ block
      → length block ≡ cnt
      → length recent + 1 ≤ cnt
      → f.index ≡ q * cnt
      → f.index + cnt < 2 ^ 64
      → (filter_with o cnt val (filter_run recent f)).1.values
        ≡ (recent ++ (val ∷ [])) ++ drop (length recent + 1) block
  unfolding filter_run
  newest recent block val q f ev hb hr ei hi =
      let added = length-append recent (val ∷ []) in
      sym (ap (λ g. g.values) (filter_run-append recent (val ∷ []) f))
      ∙ filled (recent ++ (val ∷ [])) [] block q f ev (omega (arith, added, hb, hr))
          (omega (arith, hb)) (omega (arith, ei)) (omega (arith, added, hr, hi))
      ∙ ap (λ n. (recent ++ (val ∷ [])) ++ drop n block) added

  -- Let a filter whose index is zero take a number of values that is a multiple of its size, then a
  -- block of as many values as its size, then fewer than its size, and the total, less than 2^64.
  -- What it answers for one value more is the sum, in this order, of the values that came after the
  -- block, of the new value and of the rest of the block, divided by its size: the mean of the values
  -- that came last, as many as its size.
  pub filter_with_mean :
      (q : ℕ) (pre block recent : List F) (val : F) (f : Filter F)
      → length f.values ≡ cnt
      → f.index ≡ 0
      → length pre ≡ q * cnt
      → length block ≡ cnt
      → length recent + 1 ≤ cnt
      → length pre + cnt + cnt < 2 ^ 64
      → (filter_with o cnt val (filter_run (pre ++ (block ++ recent)) f)).0
        ≡ o.div
            (sum_from o
              (o.of_int (pos 0))
              ((recent ++ (val ∷ [])) ++ drop (length recent + 1) block))
            (o.of_int (pos cnt))
  unfolding filter_with
  filter_with_mean q pre block recent val f hf hi hp hb hr ht =
      let at1 = index_run pre f (omega (arith, hi, ht)) in
      let at2 = index_run block (filter_run pre f) (omega (arith, at1.0, hi, hb, ht)) in
      let start : (filter_run pre f).index ≡ q * cnt = omega (arith, at1.0, hi, hp) in
      let end : (filter_run block (filter_run pre f)).index ≡ (q + 1) * cnt =
        omega (arith, at2.0, start, hb, add-mul q 1 cnt) in
      ap (λ xs. o.div (sum_from o (o.of_int (pos 0)) xs) (o.of_int (pos cnt)))
        (ap (λ g. (filter_with o cnt val g).1.values)
            (filter_run-append pre (block ++ recent) f
              ∙ filter_run-append block recent (filter_run pre f))
          ∙ newest recent block val (q + 1) (filter_run block (filter_run pre f))
              (turn block q (filter_run pre f) hb (at1.1 ∙ hf) start (omega (arith, at1.0, hi, ht)))
              hb hr end (omega (arith, at1.0, at2.0, hi, hb, ht)))
