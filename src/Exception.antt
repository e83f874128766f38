-- ===== src/Exception.antt =====
-- The exceptions that the program throws or lets pass, and results that may be one: the classes of
-- include/address.h, include/packet.h and include/io_exception.h, and those of std::stoull.
use sleep_manager.Base.{ℕ, ◌≡◌, refl, List, Bytes}

pub data Exception : Type 0 where
  invalid_address : Bytes → Exception
  no_ip_address_found : Bytes → Exception
  no_mac_address_found : List ℕ → Exception
  invalid_packet : Bytes → Exception
  -- `throw new InvalidPacketException(…)` throws a pointer, which no handler of the class catches.
  invalid_packet_pointer : Bytes → Exception
  -- The context, and `errno` as it was when the exception was made.
  io_exception : Bytes → ℕ → Exception
  std_invalid_argument : Exception
  std_out_of_range : Exception
  std_bad_optional_access : Exception

-- A call that can throw.
pub data Result {ℓ} (A : Type ℓ) : Type ℓ where
  throws : Exception → Result A
  ok : A → Result A

-- An exception skips the rest of the block.
infixl 5 ◌>>=◌
abbrev pub ◌>>=◌ {ℓ κ} : {A : Type ℓ} {B : Type κ} → Result A → (A → Result B) → Result B
throws thrown >>= rest = throws thrown
ok value >>= rest = rest value

-- A block that returns has had its first call return.
pub >>=-ok {ℓ κ} :
    {A : Type ℓ} {B : Type κ} (first : Result A) (rest : A → Result B) {out : B}
    → (first >>= rest) ≡ ok out
    → (value : A) × (first ≡ ok value) × (rest value ≡ ok out)
>>=-ok (throws thrown) rest returned = cc
>>=-ok (ok value) rest returned = (value, refl, returned)
