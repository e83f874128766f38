-- ===== src/Socket/Magic.antt =====
-- The Wake-on-LAN packet of ClientSocket::wol_request in src/socket.cpp.
--
-- The array `packet` is uninitialised before the loops, so it begins as an unknown function from
-- positions to bytes.
use sleep_manager.Base.{
  ℕ, zero, suc, ◌+◌, ◌*◌, ◌≡◌, refl, [], ◌∷◌, ◌++◌, Bytes, length, replicate, ◌==◌, if◌then◌else◌,
  arith,
}
use sleep_manager.Exception.{Result, ok, ◌>>=◌}
use sleep_manager.Address.{IsMac}
use sleep_manager.Socket.{Env, World}
use sleep_manager.Socket.Client.{Request, send_request}
use sleep_manager.Socket.Server.{magic_size}

-- `packet[i] = v`.
abbrev set_at : (ℕ → ℕ) → ℕ → ℕ → ℕ → ℕ
set_at packet i v k = if k == i then v else packet k

-- The loop that writes 0xff, for `n` rounds from `i` on.
unfoldable write_sync : ℕ → ℕ → (ℕ → ℕ) → ℕ → ℕ
write_sync zero i packet = packet
write_sync (suc n) i packet = write_sync n (i + 1) (set_at packet i 0xff)

-- The inner loop, over the bytes of the address that are left.
unfoldable write_mac : Bytes → ℕ → (ℕ → ℕ) → ℕ → ℕ
write_mac [] i packet = packet
write_mac (b ∷ bs) i packet = write_mac bs (i + 1) (set_at packet i b)

-- The outer loop, for `n` rounds from `i` on.
unfoldable write_copies : Bytes → ℕ → ℕ → (ℕ → ℕ) → ℕ → ℕ
unfolding write_mac
write_copies mac zero i packet = packet
write_copies mac (suc n) i packet = write_copies mac n (i + 1) (write_mac mac (6 + i * 6) packet)

-- `string message(packet.data(), packet.size())`.
unfoldable to_bytes : ℕ → ℕ → (ℕ → ℕ) → Bytes
to_bytes zero i packet = []
to_bytes (suc n) i packet = packet i ∷ to_bytes n (i + 1) packet

unfoldable magic_message : (ℕ → ℕ) → Bytes → Bytes
unfolding write_sync write_copies to_bytes
magic_message old mac = to_bytes magic_size 0 (write_copies mac 16 0 (write_sync 6 0 old))

unfoldable wol_request : Env → (ℕ → ℕ) → Bytes → Bytes → ℕ → World → Result (Request × World)
wol_request env old mac ip port w =
    let q : Request = record {
      sent_packet = magic_message old mac;
      dest_ip_address = ip;
      dest_port = port;
    } in
    send_request env q w >>= λ w'. ok (q, w')

-- A list `n` times in a row.
abbrev repeated : ℕ → Bytes → Bytes
repeated zero s = []
repeated (suc n) s = s ++ repeated n s

-- The message is six bytes 0xff and then the address sixteen times, whatever the array held before;
-- so it has the length that handle_wol asks for.
magic_message_lem :
    (old : ℕ → ℕ) (mac : Bytes)
    → IsMac mac
    → (magic_message old mac ≡ replicate 6 0xff ++ repeated 16 mac)
      × (length (magic_message old mac) ≡ magic_size)
unfolding magic_message
magic_message_lem old (a ∷ b ∷ c ∷ d ∷ e ∷ f ∷ []) _ = (refl, refl)
magic_message_lem old _ (n, _) = absurd (omega arith)
