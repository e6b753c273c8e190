-- ===== src/Pin/Blocks.antt =====
-- Byte strings as the blocks of 16 bytes that src/ctap/pin_protocol_v1.rs copies them to.
use open_sk.Common.{ℕ, zero, suc, ◌*◌, ◌≡◌, refl, ap, arith, List, [], ◌∷◌, ◌++◌, length}
use open_sk.Common.{take, drop, replicate, All, take_exact, drop_exact, append_assoc}
use open_sk.Common.{length-append, length-take, length-drop, take-append-drop, All-append_left}
use open_sk.Common.{All-append_right}
use open_sk.Common.Bits.{IsByte}
use open_sk.Crypto.Cbc.{Block16, IsBlock}
use open_sk.Ctap.State.{concat}

-- `blocks[i].copy_from_slice(&bytes[16 * i..16 * (i + 1)])` for each `i` below the count.
unfoldable pub blocks_of : ℕ → List ℕ → List Block16
blocks_of zero bytes = []
blocks_of (suc n) bytes = take 16 bytes ∷ blocks_of n (drop 16 bytes)

abbrev pub zero_iv : Block16
zero_iv = replicate 16 0

pub zero_iv-IsBlock : IsBlock zero_iv
zero_iv-IsBlock = record { size = refl; bytes = omega arith }

pub blocks_of-concat :
    (blocks : List Block16)
    → All IsBlock blocks
    → blocks_of (length blocks) (concat blocks) ≡ blocks
unfolding blocks_of
blocks_of-concat [] h = refl
blocks_of-concat (block ∷ blocks) h =
    rw
      (
        take_exact 16 block (concat blocks) h.0.size,
        drop_exact 16 block (concat blocks) h.0.size,
        blocks_of-concat blocks h.1,
      )
      refl

All-take : (n : ℕ) (xs : List ℕ) → All IsByte xs → All IsByte (take n xs)
All-take n xs h = All-append_left IsByte (take n xs) (drop n xs) (rw (take-append-drop n xs) h)

All-drop : (n : ℕ) (xs : List ℕ) → All IsByte xs → All IsByte (drop n xs)
All-drop n xs h = All-append_right IsByte (take n xs) (drop n xs) (rw (take-append-drop n xs) h)

drop_size : (n : ℕ) (bytes : List ℕ) → length bytes ≡ 16 * suc n → length (drop 16 bytes) ≡ 16 * n
drop_size n bytes e = omega (arith, e, length-drop 16 bytes)

pub blocks_of-IsBlock :
    (n : ℕ) (bytes : List ℕ)
    → length bytes ≡ 16 * n
    → All IsByte bytes
    → All IsBlock (blocks_of n bytes)
unfolding blocks_of
blocks_of-IsBlock zero bytes e h = tt
blocks_of-IsBlock (suc n) bytes e h = (
  record { size = omega (arith, e, length-take 16 bytes); bytes = All-take 16 bytes h },
  blocks_of-IsBlock n (drop 16 bytes) (drop_size n bytes e) (All-drop 16 bytes h),
)

pub concat-blocks_of :
    (n : ℕ) (bytes : List ℕ) → length bytes ≡ 16 * n → concat (blocks_of n bytes) ≡ bytes
unfolding blocks_of
concat-blocks_of zero [] e = refl
concat-blocks_of zero (b ∷ bytes) e = absurd (omega (arith, e))
concat-blocks_of (suc n) bytes e =
    rw (concat-blocks_of n (drop 16 bytes) (drop_size n bytes e)) (take-append-drop 16 bytes)

pub length-blocks_of : (n : ℕ) (bytes : List ℕ) → length (blocks_of n bytes) ≡ n
unfolding blocks_of
length-blocks_of zero bytes = refl
length-blocks_of (suc n) bytes = ap suc (length-blocks_of n (drop 16 bytes))

pub length-concat :
    (blocks : List Block16) → All IsBlock blocks → length (concat blocks) ≡ 16 * length blocks
length-concat [] h = refl
length-concat (block ∷ blocks) h =
    omega (arith, length-append block (concat blocks), h.0.size, length-concat blocks h.1)

pub concat-append :
    (blocks more : List Block16) → concat (blocks ++ more) ≡ concat blocks ++ concat more
concat-append [] more = refl
concat-append (block ∷ blocks) more =
    rw (append_assoc block (concat blocks) (concat more), concat-append blocks more) refl
