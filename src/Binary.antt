-- ===== src/Binary.antt =====
-- drv_types.h and drv_types.cc, `Binary`: an owner of one reference to a binary of the runtime. Its
-- only field is the address, or a null pointer.
pub mod Counts
pub mod Equality
mod Tests
use gen_utp.Base.{
  ℕ, zero, suc, ◌≤◌, Bool, true, false, ◌&&◌, Option, some, none, List, [], ◌∷◌, length, ltb, ◌==◌,
  if◌then◌else◌, Result, ok, err, fault,
}
use gen_utp.Coder.Defs.{Ei}
use gen_utp.Coder.Decoder
use gen_utp.Coder.Decoder.{EiDecoder}
use gen_utp.Driver.Binaries.{DrvBinaries}

abbrev pub Binary : Type 0
Binary = Option ℕ

-- `memcmp` of two buffers of one size, compared with 0.
unfoldable pub same_bytes : List ℕ → List ℕ → Bool
same_bytes [] [] = true
same_bytes (x ∷ xs) (y ∷ ys) = x == y && same_bytes xs ys
same_bytes _ _ = false

-- `operator bool`
unfoldable pub is_set : Binary → Bool
is_set none = false
is_set (some b) = true

-- The two objects afterwards: this one and the argument.
unfoldable pub swap : Binary → Binary → Binary × Binary
swap this b = (b, this)

module _ (rt : DrvBinaries) where
  open rt use {Store, alloc, inc_refc, free, orig_bytes, write}

  -- `Binary(const Binary&)`
  unfoldable pub copy : Binary → Store → Binary × Store
  copy none s = (none, s)
  copy (some b) s = (some b, inc_refc b s)

  -- `reset`, whose argument is a null pointer unless it is given.
  unfoldable pub reset : Binary → Binary → Store → Binary × Store
  reset b none s = (b, s)
  reset b (some bin) s = (b, free bin s)

  -- `~Binary`
  unfoldable pub destroy : Binary → Store → Store
  unfolding reset
  destroy this s = (reset none this s).1

  -- `operator=`; `same` tells whether the argument is this object.
  unfoldable pub assign : Bool → Binary → Binary → Store → Binary × Store
  unfolding reset copy
  assign true this b s = (this, s)
  assign false this b s = copy b (reset none this s).1

  -- `alloc`
  unfoldable pub allocate : ℕ → Binary → Store → Binary × Store
  unfolding reset
  allocate size this s = let (bin, s') = alloc size (reset none this s).1 in (some bin, s')

  unfoldable pub size : Binary → Store → ℕ
  size none s = 0
  size (some bin) s = length (orig_bytes bin s)

  -- What `data` points at; a null pointer has nothing.
  unfoldable pub data_of : Binary → Store → Option (List ℕ)
  data_of none s = none
  data_of (some bin) s = some (orig_bytes bin s)

  -- `operator==`
  unfoldable pub equal : Binary → Binary → Store → Bool
  unfolding same_bytes
  equal none none s = true
  equal (some c) none s = false
  equal none (some b) s = false
  equal (some c) (some b) s =
      if length (orig_bytes b s) == length (orig_bytes c s)
      then same_bytes (orig_bytes c s) (orig_bytes b s)
      else false

  -- `decode`: the object and the store, which an exception leaves as well, and the decoder with the
  -- size. The bytes of a term that is longer than `size` go past the end of the binary.
  abbrev pub Decoded : Type 0
  Decoded = Binary × Store × Result (ℕ × EiDecoder)

  abbrev filled : ℕ → ℕ → Store → Result (List ℕ × EiDecoder) → Decoded
  filled size bin s (err e) = (some bin, s, err e)
  filled size bin s (ok (bytes, d)) =
      if ltb size (length bytes)
      then (some bin, s, err fault)
      else (some bin, write bin bytes s, ok (length bytes, d))

  unfoldable pub decode : Ei → EiDecoder → ℕ → Binary → Store → Decoded
  unfolding allocate Decoder.binary Decoder.advance
  decode ei d size this s =
      let (bin, s') = alloc size (reset none this s).1 in filled size bin s' (Decoder.binary ei d)
