-- ===== src/Memory/Copy/Compared.antt =====
-- `memset` and `memcmp` do what C says.
use ferric_k.Base.{
  ℕ, zero, suc, ◌+◌, ◌%◌, ◌<◌, ◌≤◌, ◌≡◌, ◌≢◌, ◌⊎◌, inl, inr, refl, subst, ◌∙◌, arith, ◌==◌,
  Bool-cases,
}
use ferric_k.Base.Int.{ℤ, pos, diff}
use ferric_k.Memory.Heap.{Mem, write}
use ferric_k.Memory.Heap.Words.{write_self, write_other}
use ferric_k.Memory.Copy.{fill_up, memset, compare, memcmp}

fill_up-others :
    (n i dest value : ℕ) (m : Mem) (x : ℕ)
    → x < dest + i ⊎ dest + i + n ≤ x
    → fill_up n i dest value m x ≡ m x
unfolding fill_up
fill_up-others zero i dest value m x outside = refl
fill_up-others (suc n) i dest value m x outside =
    let further : x < dest + (i + 1) ⊎ dest + (i + 1) + n ≤ x = elim outside [
      | inl lt ↦ inl (omega (arith, lt))
      | inr le ↦ inr (omega (arith, le))
    ] in
    let away : x ≢ dest + i = elim outside [
      | inl lt ↦ λ e. omega (arith, e, lt)
      | inr le ↦ λ e. omega (arith, e, le)
    ] in
    fill_up-others n (i + 1) dest value (write m (dest + i) (value % 256)) x further
    ∙ write_other m (dest + i) (value % 256) x away

fill_up-filled :
    (n i dest value : ℕ) (m : Mem) (k : ℕ)
    → k < n
    → fill_up n i dest value m (dest + (i + k)) ≡ value % 256
unfolding fill_up
fill_up-filled zero i dest value m k lt = absurd (omega (arith, lt))
fill_up-filled (suc n) i dest value m zero lt =
    let here : dest + (i + 0) ≡ dest + i = omega arith in
    rw here (
      fill_up-others n (i + 1) dest value (write m (dest + i) (value % 256)) (dest + i)
        (inl (omega arith))
      ∙ write_self m (dest + i) (value % 256))
fill_up-filled (suc n) i dest value m (suc k) lt =
    let shift : i + suc k ≡ i + 1 + k = omega arith in
    rw shift
      (fill_up-filled n (i + 1) dest value (write m (dest + i) (value % 256)) k (omega (arith, lt)))

-- The region has the value's low byte, and no other byte has changed.
pub memset-filled :
    (dest value n : ℕ) (m : Mem)
    → ((k : ℕ) → k < n → memset dest value n m (dest + k) ≡ value % 256)
      × ((x : ℕ) → x < dest ⊎ dest + n ≤ x → memset dest value n m x ≡ m x)
unfolding memset
memset-filled dest value n m = (
  (λ k lt.
      let none : 0 + k ≡ k = omega arith in
      subst (λ j. fill_up n 0 dest value m (dest + j) ≡ value % 256) none
        (fill_up-filled n 0 dest value m k lt)),
  λ x outside.
      fill_up-others n 0 dest value m x
        (elim outside [ inl lt ↦ inl (omega (arith, lt)) | inr le ↦ inr (omega (arith, le)) ]),
)

-- The place where two regions first differ.
pub record FirstDiff (n i a b : ℕ) (m : Mem) (result : ℤ) : Type 0 where
  pub at : ℕ
  pub inside : at < n
  pub same : (k : ℕ) → k < at → m (a + (i + k)) ≡ m (b + (i + k))
  pub differ : m (a + (i + at)) ≢ m (b + (i + at))
  pub value : result ≡ diff (m (a + (i + at))) (m (b + (i + at)))

-- What two regions are compared to.
abbrev pub Compared : (n i a b : ℕ) → Mem → ℤ → Type 0
Compared n i a b m result =
    (((k : ℕ) → k < n → m (a + (i + k)) ≡ m (b + (i + k))) × (result ≡ pos 0))
    ⊎ FirstDiff n i a b m result

compare-Compared : (n i a b : ℕ) (m : Mem) → Compared n i a b m (compare n i a b m)
unfolding compare
compare-Compared zero i a b m = inl ((λ k lt. absurd (omega (arith, lt))), refl)
compare-Compared (suc n) i a b m =
    let x = m (a + i) in
    let y = m (b + i) in
    let left : a + (i + 0) ≡ a + i = omega arith in
    let right : b + (i + 0) ≡ b + i = omega arith in
    elim (Bool-cases (x == y)) [
      | inr differ ↦ rw differ (
          inr (record {
            at = 0;
            inside = omega arith;
            same = λ k lt. absurd (omega (arith, lt));
            differ = rw (left, right) (λ e. ground (arith, e, differ));
            value = rw (left, right) refl;
          }))
      | inl equal ↦ rw equal (
          compare-step n i a b m (ground (arith, equal)) (compare n (i + 1) a b m)
            (compare-Compared n (i + 1) a b m))
    ]
  where
    shifted : (i k : ℕ) → i + suc k ≡ i + 1 + k
    shifted i k = omega arith

    next_same :
        (n i a b : ℕ) (m : Mem)
        → m (a + i) ≡ m (b + i)
        → ((k : ℕ) → k < n → m (a + (i + 1 + k)) ≡ m (b + (i + 1 + k)))
        → (k : ℕ) → k < suc n
        → m (a + (i + k)) ≡ m (b + (i + k))
    next_same n i a b m e rest zero lt =
        let left : a + (i + 0) ≡ a + i = omega arith in
        let right : b + (i + 0) ≡ b + i = omega arith in rw (left, right) e
    next_same n i a b m e rest (suc k) lt = rw (shifted i k) (rest k (omega (arith, lt)))

    compare-step :
        (n i a b : ℕ) (m : Mem)
        → m (a + i) ≡ m (b + i)
        → (r : ℤ) → Compared n (i + 1) a b m r
        → Compared (suc n) i a b m r
    compare-step n i a b m e r (inl all) = inl (next_same n i a b m e all.0, all.1)
    compare-step n i a b m e r (inr d) = inr (record {
      at = suc d.at;
      inside = omega (arith, d.inside);
      same = next_same d.at i a b m e d.same;
      differ = rw (shifted i d.at) d.differ;
      value = rw (shifted i d.at) d.value;
    })

-- `memcmp` answers 0 if the regions have the same bytes, and otherwise the difference of the first two
-- bytes that differ.
pub memcmp-Compared : (a b n : ℕ) (m : Mem) → Compared n 0 a b m (memcmp a b n m)
unfolding memcmp
memcmp-Compared a b n m = compare-Compared n 0 a b m
