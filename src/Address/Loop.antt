-- ===== src/Address/Loop.antt =====
-- What the printing loop of src/address.cpp writes, the parsing loop reads back.
use sleep_manager.Base.{
  ℕ, suc, ◌%◌, ◌<◌, ◌≡◌, ◌∙◌, refl, sym, ap, Bool, true, false, none, [], ◌∷◌, ◌++◌, append_assoc,
  append-nil, Bytes, All, length, map, ==_iff,
}
use sleep_manager.Text.Number.{is_space, digit_value}
use sleep_manager.Text.Stream.{istringstream, read_unsigned}
use sleep_manager.Text.Print.{Stops}
use sleep_manager.Text.Read.{behind, read_char_plain}
use sleep_manager.Exception.{ok, ◌>>=◌}
use sleep_manager.Address.{Junk, put_octets, read_octets, read_separator}

-- What the two loops need of a number's print and of the separator, for numbers below `bound`.
pub record Format (base bound sep : ℕ) (put : ℕ → Bytes) : Type 0 where
  pub reads :
      (old b : ℕ) (out : Bytes)
      → b < bound
      → Stops base out
      → read_unsigned base old (istringstream (put b ++ out)) ≡ (b, behind out)
  pub solid : is_space sep ≡ false
  pub stops : digit_value base sep ≡ none

module _ (put : ℕ → Bytes) (sep : ℕ) where
  abbrev pub lead : Bool → Bytes
  lead true = []
  lead false = sep ∷ []

  -- The printed text of the bytes that are left.
  pub joined : Bool → Bytes → Bytes
  joined first [] = []
  joined first (b ∷ bs) = lead first ++ (put b ++ joined false bs)

  pub put_octets-joined :
      (first : Bool) (bs out : Bytes) → put_octets put sep first bs out ≡ out ++ joined first bs
  unfolding put_octets joined
  put_octets-joined first [] out = sym (append-nil out)
  put_octets-joined true (b ∷ bs) out = simp (put_octets-joined false bs, append_assoc)
  put_octets-joined false (b ∷ bs) out = simp (put_octets-joined false bs, append_assoc)

-- `*it = byte` for each of the bytes.
abbrev pub low_bytes : Bytes → Bytes
low_bytes = map (λ b. b % 256)

module _ (base bound sep : ℕ) (put : ℕ → Bytes) (form : Format base bound sep put) where
  read_separator-lead :
      (message : Bytes) (junk : Junk) (first : Bool) (r : Bytes)
      → read_separator sep message junk first (istringstream (lead put sep first ++ r))
        ≡ ok (istringstream r)
  unfolding read_separator
  read_separator-lead message junk true r = refl
  read_separator-lead message junk false r =
      rw (read_char_plain junk.ch sep r form.solid, (==_iff sep sep).1 refl)

  joined-Stops : (bs tail : Bytes) → Stops base tail → Stops base (joined put sep false bs ++ tail)
  unfolding joined
  joined-Stops [] tail h = h
  joined-Stops (b ∷ bs) tail h = form.stops

  -- One round: the separator and the byte in front are read.
  read_octets_round :
      (message : Bytes) (junk : Junk) (first : Bool) (n b : ℕ) (out : Bytes)
      → b < bound
      → Stops base out
      → read_octets base sep message junk first
          (suc n)
          (istringstream (lead put sep first ++ (put b ++ out)))
        ≡ (read_octets base sep message junk false n (behind out) >>= λ r.
            ok ((b % 256) ∷ r.0, r.1))
  unfolding read_octets
  read_octets_round message junk first n b out h stop =
      rw (read_separator-lead message junk first (put b ++ out), form.reads junk.byte b out h stop)

  joined_round :
      (first : Bool) (b : ℕ) (bs tail : Bytes)
      → joined put sep first (b ∷ bs) ++ tail
        ≡ lead put sep first ++ (put b ++ (joined put sep false bs ++ tail))
  unfolding joined
  joined_round first b bs tail =
      append_assoc (lead put sep first) (put b ++ joined put sep false bs) tail
      ∙ ap (◌++◌ (lead put sep first)) (append_assoc (put b) (joined put sep false bs) tail)

  -- The loop reads the bytes that are printed, and stops behind them.
  pub read_octets-joined :
      (message : Bytes) (junk : Junk) (first : Bool) (b : ℕ) (bs tail : Bytes)
      → All (λ b. b < bound) (b ∷ bs)
      → Stops base tail
      → read_octets base sep message junk first
          (length (b ∷ bs))
          (istringstream (joined put sep first (b ∷ bs) ++ tail))
        ≡ ok (low_bytes (b ∷ bs), behind tail)
  unfolding joined read_octets
  read_octets-joined message junk first b [] tail (h, _) stop =
      ap (λ s. read_octets base sep message junk first 1 (istringstream s))
        (joined_round first b [] tail)
      ∙ read_octets_round message junk first 0 b tail h stop
  read_octets-joined message junk first b (b' ∷ bs) tail (h, hs) stop =
      ap (λ s. read_octets base sep message junk first (length (b ∷ b' ∷ bs)) (istringstream s))
        (joined_round first b (b' ∷ bs) tail)
      ∙ read_octets_round message junk first (length (b' ∷ bs)) b
          (joined put sep false (b' ∷ bs) ++ tail) h (joined-Stops (b' ∷ bs) tail stop)
      ∙ ap (λ r. r >>= λ r. ok ((b % 256) ∷ r.0, r.1))
          (read_octets-joined message junk false b' bs tail hs stop)
