-- ===== src/Store/Tests.antt =====
-- Bit fields of concrete words.
use open_sk.Common.{◌+◌, ◌≤◌, ◌<◌, ◌≡◌, ◌⊎◌, refl, arith}
use open_sk.Common.Results.{ok, err}
use open_sk.Store.Digits.{bit}
use open_sk.Store.Bitfield.{Field, get, set, cleared, set-ok}
use open_sk.Store.Interface.{invalid_storage}

-- Five digits from the fourth on.
abbrev field : Field
field = record { pos = 4; len = 5 }

set_erased : set field 0xffffffff 9 ≡ (0xfffffe9f, ok tt)
unfolding set get cleared
set_erased = refl

-- A digit that is 0 cannot be set, and the word is changed nevertheless.
set_written : set field 0xfffffe9f 16 ≡ (0xfffffe0f, err invalid_storage)
unfolding set get cleared
set_written = refl

set-ok_example :
    (get field 0xfffffe9f ≡ 9)
    × (bit 12 0xfffffe9f ≤ bit 12 0xffffffff)
    × ((bit 12 0xfffffe9f ≡ bit 12 0xffffffff) ⊎ ((4 ≤ 12) × (12 < 4 + 5)))
set-ok_example =
    set-ok field 0xffffffff 9 0xfffffe9f 12 (record { fits = omega arith; small = omega arith })
      (omega arith) set_erased
