-- ===== src/Memory/Copy/Moved.antt =====
-- `memcpy` and `memmove` do what C says.
use ferric_k.Base.{
  ℕ, zero, suc, ◌+◌, ◌<◌, ◌≤◌, ◌≡◌, ◌≢◌, ◌⊎◌, inl, inr, refl, subst, ◌∙◌, arith, leb, ltb,
  Bool-cases,
}
use ferric_k.Memory.Heap.{Mem, write}
use ferric_k.Memory.Heap.Words.{write_self, write_other}
use ferric_k.Memory.Copy.{copy_up, copy_down, memcpy, memmove}

-- The bytes of `src` as they were stand at `dest`, and no other byte has changed.
pub record IsMoved (dest src n : ℕ) (before after : Mem) : Type 0 where
  pub moved : (k : ℕ) → k < n → after (dest + k) ≡ before (src + k)
  pub others : (x : ℕ) → x < dest ⊎ dest + n ≤ x → after x ≡ before x

-- The bytes in front of the place that is written stay.
copy_up-below : (n i dest src : ℕ) (m : Mem) (x : ℕ) → x < dest + i → copy_up n i dest src m x ≡ m x
unfolding copy_up
copy_up-below zero i dest src m x lt = refl
copy_up-below (suc n) i dest src m x lt =
    copy_up-below n (i + 1) dest src (write m (dest + i) (m (src + i))) x (omega (arith, lt))
    ∙ write_other m (dest + i) (m (src + i)) x (λ e. omega (arith, e, lt))

copy_up-above :
    (n i dest src : ℕ) (m : Mem) (x : ℕ) → dest + i + n ≤ x → copy_up n i dest src m x ≡ m x
unfolding copy_up
copy_up-above zero i dest src m x le = refl
copy_up-above (suc n) i dest src m x le =
    copy_up-above n (i + 1) dest src (write m (dest + i) (m (src + i))) x (omega (arith, le))
    ∙ write_other m (dest + i) (m (src + i)) x (λ e. omega (arith, e, le))

-- Rising order is right if no byte is written before it is read.
copy_up-reads :
    (n i dest src : ℕ) (m : Mem) (k : ℕ)
    → dest ≤ src ⊎ src + i + n ≤ dest
    → k < n
    → copy_up n i dest src m (dest + (i + k)) ≡ m (src + (i + k))
unfolding copy_up
copy_up-reads zero i dest src m k order lt = absurd (omega (arith, lt))
copy_up-reads (suc n) i dest src m zero order lt =
    let v = m (src + i) in
    let here : dest + (i + 0) ≡ dest + i = omega arith in
    let there : src + (i + 0) ≡ src + i = omega arith in
    rw (here, there)
      (copy_up-below n (i + 1) dest src (write m (dest + i) v) (dest + i) (omega arith)
        ∙ write_self m (dest + i) v)
copy_up-reads (suc n) i dest src m (suc k) order lt =
    let v = m (src + i) in
    let shift : i + suc k ≡ i + 1 + k = omega arith in
    let safe : dest ≤ src ⊎ src + (i + 1) + n ≤ dest = elim order [
      | inl le ↦ inl le
      | inr le ↦ inr (omega (arith, le))
    ] in
    let unread : src + (i + 1 + k) ≢ dest + i = elim order [
      | inl le ↦ λ e. omega (arith, e, le)
      | inr le ↦ λ e. omega (arith, e, le, lt)
    ] in
    rw shift (
      copy_up-reads n (i + 1) dest src (write m (dest + i) v) k safe (omega (arith, lt))
      ∙ write_other m (dest + i) v (src + (i + 1 + k)) unread)

copy_up-IsMoved :
    (dest src n : ℕ) (m : Mem)
    → dest ≤ src ⊎ src + n ≤ dest
    → IsMoved dest src n m (copy_up n 0 dest src m)
copy_up-IsMoved dest src n m order = record {
  moved = λ k lt.
      let none : 0 + k ≡ k = omega arith in
      subst (λ j. copy_up n 0 dest src m (dest + j) ≡ m (src + j)) none
        (copy_up-reads n 0 dest src m k
          (elim order [ inl le ↦ inl le | inr le ↦ inr (omega (arith, le)) ]) lt);
  others = λ x outside. elim outside [
    | inl lt ↦ copy_up-below n 0 dest src m x (omega (arith, lt))
    | inr le ↦ copy_up-above n 0 dest src m x (omega (arith, le))
  ];
}

copy_down-others :
    (n dest src : ℕ) (m : Mem) (x : ℕ) → x < dest ⊎ dest + n ≤ x → copy_down n dest src m x ≡ m x
unfolding copy_down
copy_down-others zero dest src m x outside = refl
copy_down-others (suc n) dest src m x outside =
    let further : x < dest ⊎ dest + n ≤ x = elim outside [
      | inl lt ↦ inl lt
      | inr le ↦ inr (omega (arith, le))
    ] in
    let away : x ≢ dest + n = elim outside [
      | inl lt ↦ λ e. omega (arith, e, lt)
      | inr le ↦ λ e. omega (arith, e, le)
    ] in
    copy_down-others n dest src (write m (dest + n) (m (src + n))) x further
    ∙ write_other m (dest + n) (m (src + n)) x away

copy_down-reads :
    (n dest src : ℕ) (m : Mem) (k : ℕ)
    → src ≤ dest
    → k < n
    → copy_down n dest src m (dest + k) ≡ m (src + k)
unfolding copy_down
copy_down-reads zero dest src m k order lt = absurd (omega (arith, lt))
copy_down-reads (suc n) dest src m k order lt =
    let v = m (src + n) in
    let m' = write m (dest + n) v in
    elim (Bool-cases (ltb k n)) [
      | inl before ↦
          copy_down-reads n dest src m' k order (ground (arith, before))
          ∙ write_other m (dest + n) v (src + k) (λ e. ground (arith, e, before, order))
      | inr last ↦
          (let e : k ≡ n = ground (arith, last, lt) in
            rw e (
              copy_down-others n dest src m' (dest + n) (inr (omega arith))
              ∙ write_self m (dest + n) v))
    ]

-- Regions that do not overlap, or with the destination in front, are copied byte by byte.
pub memcpy-IsMoved :
    (dest src n : ℕ) (m : Mem)
    → dest ≤ src ⊎ src + n ≤ dest
    → IsMoved dest src n m (memcpy dest src n m)
unfolding memcpy
memcpy-IsMoved dest src n m order = copy_up-IsMoved dest src n m order

-- However the regions overlap, the destination then has the bytes that the source had, and no other byte
-- of the memory has changed.
pub memmove-IsMoved : (dest src n : ℕ) (m : Mem) → IsMoved dest src n m (memmove dest src n m)
unfolding memmove
memmove-IsMoved dest src n m = elim (Bool-cases (leb dest src)) [
  | inl front ↦ rw front (copy_up-IsMoved dest src n m (inl (ground (arith, front))))
  | inr behind ↦ rw behind (record {
    moved = λ k lt. copy_down-reads n dest src m k (ground (arith, behind)) lt;
    others = copy_down-others n dest src m;
  })
]
