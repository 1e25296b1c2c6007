-- ===== src/Input/Scancodes/Pause.antt =====
-- The pause sequence of scancodes.rs.
use ferric_k.Base.{ℕ, ◌≡◌, ◌≢◌, refl, ◌∙◌, ap, true, false, arith, List, [], ◌∷◌, ◌++◌, none, ◌==◌}
use ferric_k.Input.Scancodes.{ScancodeDecoder, push, feed}
use ferric_k.Input.Scancodes.Stream.{feed-none}

-- A run of bytes without the last byte of the pause sequence.
abbrev pub NoPauseEnd : List ℕ → Type 0
NoPauseEnd [] = Unit {0}
NoPauseEnd (b ∷ bs) = (b ≢ 0xC5) × NoPauseEnd bs

push-paused : (d : ScancodeDecoder) (b : ℕ) → d.pause ≡ true → b ≢ 0xC5 → push d b ≡ (none, d)
unfolding push
push-paused d b p n = let e : (b == 0xC5) ≡ false = ground arith in rw (p, e) refl

feed-paused :
    (bs rest : List ℕ) (d : ScancodeDecoder)
    → d.pause ≡ true
    → NoPauseEnd bs
    → feed d (bs ++ rest) ≡ feed d rest
feed-paused [] rest d p n = refl
feed-paused (b ∷ bs) rest d p n =
    feed-none d b (bs ++ rest) (push-paused d b p n.0) ∙ feed-paused bs rest d p n.1

pause_start :
    (d : ScancodeDecoder) → d.pause ≡ false → push d 0xE1 ≡ (none, record d { pause = true })
unfolding push
pause_start d p = rw p

pause_end :
    (d : ScancodeDecoder) → d.pause ≡ true → push d 0xC5 ≡ (none, record d { pause = false })
unfolding push
pause_end d p = rw p

unpause : (d : ScancodeDecoder) → d.pause ≡ false → record d { pause = false } ≡ d
unpause d p = ground arith

-- The pause sequence is swallowed: from 0xE1 to the next 0xC5, whatever stands between, nothing
-- is reported, and the bytes behind it are decoded as if the sequence had not been there.
pub feed-pause :
    (d : ScancodeDecoder) (bs rest : List ℕ)
    → d.pause ≡ false
    → NoPauseEnd bs
    → feed d (0xE1 ∷ (bs ++ (0xC5 ∷ rest))) ≡ feed d rest
feed-pause d bs rest p n =
    feed-none d 0xE1 (bs ++ (0xC5 ∷ rest)) (pause_start d p)
    ∙ feed-paused bs (0xC5 ∷ rest) (record d { pause = true }) refl n
    ∙ feed-none (record d { pause = true }) 0xC5 rest (pause_end (record d { pause = true }) refl)
    ∙ ap (λ x. feed x rest) (unpause d p)
