-- ===== src/System/Threads/Moves.antt =====
-- The steps of the manager's threads on what stays true of them.
use sleep_manager.Base.{
  ℕ, suc, ◌<◌, ◌≡◌, subst, List, [], ◌∷◌, ◌++◌, All, All-middle, All-insert, Option, Bytes, arith,
}
use sleep_manager.WorkStation.{awaken}
use sleep_manager.Packet.{Packet}
use sleep_manager.Management.{ManagementEvent, new_station, insert, remove_by_mac_address}
use sleep_manager.Management.Table.{creates, inserts as inserts_call, removes_mac, step}
use sleep_manager.Management.Threads.{Pending, found, advance}
use sleep_manager.Management.Threads.Interleaved.{IsOrderly, found-IsOrderly}
use sleep_manager.Socket.{World}
use sleep_manager.Interface.Session.{Session, on_event}
use sleep_manager.System.Threads.{
  Process, Handler, making, inserting, responding, Drawing, table_moves,
}
use sleep_manager.System.Threads.Screen.{IsInsertable, IsLive, called}
use sleep_manager.System.Threads.Writes.{moved}
use sleep_manager.System.Threads.Rendering.{notified}

abbrev pub IsRunning : ℕ → Process → Type 0
IsRunning h x = IsLive h x.session x.notices x.drawing x.pending x.handlers

module _ {h : ℕ} {s : Session} {es : List (ℕ × ManagementEvent)} {d : Drawing} {ts : List Pending}
    {hs : List Handler} (k : IsLive h s es d ts hs) where
  -- Other threads of requests.
  pub handled : (hs' : List Handler) → All (IsInsertable s.table.next) hs' → IsLive h s es d ts hs'
  handled hs' made = record {
    heard = k.heard;
    valid = k.valid;
    open_ = k.open_;
    orderly = k.orderly;
    dark = k.dark;
    blank = k.blank;
    insertable = made;
    fresh = k.fresh;
  }

  -- More pending threads.
  pub looked_up :
      (r : Option ℕ) (f : ℕ → Pending)
      → ((p : ℕ) → IsOrderly (f p))
      → IsLive h s es d (found r f ++ ts) hs
  looked_up r f orderly = record {
    heard = k.heard;
    valid = k.valid;
    open_ = k.open_;
    orderly = found-IsOrderly r f ts orderly k.orderly;
    dark = k.dark;
    blank = k.blank;
    insertable = k.insertable;
    fresh = k.fresh;
  }

module _ (h : ℕ) (x : Process) where
  at_handlers :
      (hs : List Handler)
      → x.handlers ≡ hs
      → IsRunning h x
      → IsLive h x.session x.notices x.drawing x.pending hs
  at_handlers hs e k = subst (IsLive h x.session x.notices x.drawing x.pending) e k

  pub at_drawing :
      (d : Drawing)
      → x.drawing ≡ d
      → IsRunning h x
      → IsLive h x.session x.notices d x.pending x.handlers
  at_drawing d e k =
      subst (λ (d : Drawing). IsLive h x.session x.notices d x.pending x.handlers) e k

  -- The station of a request is made, and then inserted.
  pub makes-IsRunning :
      (us vs : List Handler) (received : Packet)
      → x.handlers ≡ us ++ making received ∷ vs
      → IsRunning h x
      → let (t, p) = new_station received.header.sender_addresses awaken x.session.table in
        IsRunning h (record (table_moves t x) { handlers = us ++ inserting received p ∷ vs })
  unfolding table_moves step new_station
  makes-IsRunning us vs received e k =
      let a = received.header.sender_addresses in
      let k' =
        called h (creates a awaken) x.session x.notices x.drawing x.pending
          (us ++ making received ∷ vs) tt (at_handlers _ e k) in
      handled k' (us ++ inserting received x.session.table.next ∷ vs) (
        All-insert (IsInsertable (suc x.session.table.next)) us
          (inserting received x.session.table.next ∷ []) vs (omega arith, tt)
          (All-middle (IsInsertable (suc x.session.table.next)) us (making received) vs
            k'.insertable).1)

  pub inserts-IsRunning :
      (us vs : List Handler) (received : Packet) (p : ℕ)
      → x.handlers ≡ us ++ inserting received p ∷ vs
      → IsRunning h x
      → IsRunning h (record (table_moves (insert p x.session.table).0 x) {
        handlers = us ++ responding received ∷ vs;
      })
  unfolding table_moves step
  inserts-IsRunning us vs received p e k =
      let k' = at_handlers _ e k in
      let made : p < x.session.table.next =
        (All-middle (IsInsertable x.session.table.next) us (inserting received p) vs
          k'.insertable).0 in
      let k'' =
        called h (inserts_call p) x.session x.notices x.drawing x.pending
          (us ++ inserting received p ∷ vs) made k' in
      let n = (insert p x.session.table).0.next in
      handled k'' (us ++ responding received ∷ vs) (
        All-insert (IsInsertable n) us (responding received ∷ []) vs (tt, tt)
          (All-middle (IsInsertable n) us (inserting received p) vs k''.insertable).1)

  pub responds-IsRunning :
      (us vs : List Handler) (received : Packet) (w : World)
      → x.handlers ≡ us ++ responding received ∷ vs
      → IsRunning h x
      → IsRunning h (record x { handlers = us ++ vs; world = w })
  responds-IsRunning us vs received w e k =
      let k' = at_handlers _ e k in
      handled k' (us ++ vs)
        (All-middle (IsInsertable x.session.table.next) us (responding received) vs k'.insertable).1

  pub leaves-IsRunning :
      (a : Bytes)
      → IsRunning h x
      → IsRunning h (table_moves (remove_by_mac_address a x.session.table).0 x)
  unfolding table_moves step
  leaves-IsRunning a k =
      called h (removes_mac a) x.session x.notices x.drawing x.pending x.handlers tt k

  pub moves-IsRunning :
      (us vs : List Pending) (t : Pending)
      → x.pending ≡ us ++ t ∷ vs
      → IsRunning h x
      → let (s, more) = advance t x.session.table in
        IsRunning h (record (table_moves s x) { pending = us ++ (more ++ vs) })
  unfolding table_moves
  moves-IsRunning us vs t e k =
      moved h x.session x.notices x.drawing us vs x.handlers t
        (subst (λ (ts : List Pending). IsLive h x.session x.notices x.drawing ts x.handlers) e k)

  pub tells-IsRunning :
      (us vs : List (ℕ × ManagementEvent)) (j : ℕ) (e : ManagementEvent)
      → x.notices ≡ us ++ (j, e) ∷ vs
      → IsRunning h x
      → IsRunning h (record x {
        session = record (x.session) { channel = on_event h j x.session.channel };
        notices = us ++ vs;
      })
  tells-IsRunning us vs j e n k = notified h x.session us vs j e x.drawing x.pending x.handlers (
      subst
        (λ (es : List (ℕ × ManagementEvent)). IsLive h x.session es x.drawing x.pending x.handlers)
        n k)
