-- ===== src/Discovery/Requests.antt =====
-- The requests among the datagrams that reach src/discovery.cpp.
use sleep_manager.Base.{
  ◌≤◌, ◌<◌, ◌≡◌, refl, ap, true, List, [], ◌∷◌, ◌++◌, map, Bytes, All, length, if◌then◌else◌, arith,
  Bool-cases, ◌⊎◌, inl, inr,
}
use sleep_manager.Packet.{Packet, new_packet, discovery, BodyType}
use sleep_manager.Packet.RoundTrip.{is_discovery}
use sleep_manager.Socket.Receiving.{text, IsShort, IsOther, packet_after}

-- The requests among the packets that arrive, as they come over.
abbrev pub requests : List Packet → List Packet
requests [] = []
requests (p ∷ ps) =
    let later = requests ps in
    if is_discovery p.body.body_type then packet_after p new_packet ∷ later else later

-- The first packet of the type DISCOVERY, if there is one.
abbrev Split : List Packet → Type 0
Split ps =
    All IsOther ps
    ⊎ ((xs : List Packet) × (p : Packet) × (rest : List Packet) × (ps ≡ xs ++ p ∷ rest)
        × All IsOther xs
        × IsShort p
        × (p.body.body_type ≡ discovery)
        × All IsShort rest)

is_discovery-discovery : (t : BodyType) → is_discovery t ≡ true → t ≡ discovery
is_discovery-discovery t e = ground arith

pub split : (ps : List Packet) → All IsShort ps → Split ps
split [] _ = inl tt
split (p ∷ ps) (short, shorts) = elim (Bool-cases (is_discovery p.body.body_type)) [
  | inl d ↦ inr ([], p, ps, refl, tt, short, is_discovery-discovery p.body.body_type d, shorts)
  | inr o ↦ elim (split ps shorts) [
    | inl others ↦ inl ((short, o), others)
    | inr (xs, q, rest, e, others, sq, d, sr) ↦
        inr (p ∷ xs, q, rest, ap (◌∷◌ p) e, ((short, o), others), sq, d, sr)
  ]
]

pub requests-others :
    (xs rest : List Packet) → All IsOther xs → requests (xs ++ rest) ≡ requests rest
requests-others [] rest _ = refl
requests-others (x ∷ xs) rest ((short, other), others) = rw other (requests-others xs rest others)

pub requests-none : (ps : List Packet) → All IsOther ps → requests ps ≡ []
requests-none [] _ = refl
requests-none (p ∷ ps) ((short, other), others) = rw other (requests-none ps others)

pub requests-discovery :
    (p : Packet) (rest : List Packet)
    → p.body.body_type ≡ discovery
    → requests (p ∷ rest) ≡ packet_after p new_packet ∷ requests rest
requests-discovery p rest d =
    let t : is_discovery p.body.body_type ≡ true = ap is_discovery d in rw t

pub length-split :
    (xs : List Packet) (p : Packet) (rest : List Packet) → length rest < length (xs ++ p ∷ rest)
length-split [] p rest = omega arith
length-split (x ∷ xs) p rest = omega (arith, length-split xs p rest)

pub map-split :
    (xs : List Packet) (p : Packet) (rest : List Packet) (tail : List Bytes)
    → map text (xs ++ p ∷ rest) ++ tail ≡ map text xs ++ text p ∷ (map text rest ++ tail)
map-split [] p rest tail = refl
map-split (x ∷ xs) p rest tail = ap (◌∷◌ (text x)) (map-split xs p rest tail)

pub length-texts : (ps : List Packet) (tail : List Bytes) → length ps ≤ length (map text ps ++ tail)
length-texts [] tail = omega arith
length-texts (p ∷ ps) tail = omega (arith, length-texts ps tail)
