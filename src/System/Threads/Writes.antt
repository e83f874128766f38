-- ===== src/System/Threads/Writes.antt =====
-- The write and the event of a status report or a wakeup, and the call of a handler.
use sleep_manager.Base.{
  ℕ, ◌≢◌, Bool, true, false, not, List, [], ◌∷◌, ◌++◌, All-middle, All-insert, drop-append, length,
  drop, inl, inr,
}
use sleep_manager.WorkStation.{Status, disconnected, asleep, awaken, status_eq}
use sleep_manager.Management.{
  ManagementService, ManagementEvent, participant_list, set_status, dispatch_event, event_of,
  changed_status,
}
use sleep_manager.Management.Threads.{Pending, updating, waking, telling, advance, write_if}
use sleep_manager.Management.Threads.Interleaved.{
  IsOrderly, set_status-IsValid, dispatch_event-IsValid,
}
use sleep_manager.Interface.Session.{Session}
use sleep_manager.System.Threads.{Handler, Drawing}
use sleep_manager.System.Threads.Screen.{IsLive, any-told, owes-append, owes-told}

-- The table behind a step of a pending thread, and the notices.
abbrev pub behind : Session → ManagementService → Session
behind s t = record s { table = t }

abbrev pub noticed :
    Session → ManagementService → List (ℕ × ManagementEvent) → List (ℕ × ManagementEvent)
noticed s t es = es ++ drop (length s.table.calls) t.calls

module _ (h : ℕ) (s : Session) (es : List (ℕ × ManagementEvent)) (d : Drawing)
    (us vs : List Pending) (hs : List Handler) where
  -- The write of a pending thread `t`.
  written :
      (t : Pending) (test : Bool) (p : ℕ) (status : Status)
      → status ≢ disconnected
      → IsLive h s es d (us ++ t ∷ vs) hs
      → let (s', more) = write_if test p status s.table in
        IsLive h (behind s s') (noticed s s' es) d (us ++ (more ++ vs)) hs
  unfolding write_if set_status participant_list
  written t true p status on k = record {
    heard = k.heard;
    valid = set_status-IsValid p status s.table on k.valid;
    open_ = k.open_;
    orderly =
        All-insert IsOrderly us (telling p ∷ []) vs (tt, tt)
          (All-middle IsOrderly us t vs k.orderly).1;
    dark = k.dark;
    blank = k.blank;
    insertable = k.insertable;
    fresh = elim k.fresh [
      | inl same ↦ inl same
      | inr owed ↦ inr (owes-append h s (set_status p status s.table) es _ owed)
    ];
  }
  written t false p status on k = record {
    heard = k.heard;
    valid = k.valid;
    open_ = k.open_;
    orderly = (All-middle IsOrderly us t vs k.orderly).1;
    dark = k.dark;
    blank = k.blank;
    insertable = k.insertable;
    fresh = elim k.fresh [
      | inl same ↦ inl same
      | inr owed ↦ inr (owes-append h s s.table es _ owed)
    ];
  }

  -- Its event.
  told_of :
      (p : ℕ)
      → IsLive h s es d (us ++ telling p ∷ vs) hs
      → let s' = dispatch_event (event_of changed_status p) s.table in
        IsLive h (behind s s') (noticed s s' es) d (us ++ vs) hs
  unfolding dispatch_event
  told_of p k = record {
    heard = k.heard;
    valid = dispatch_event-IsValid p s.table k.valid;
    open_ = k.open_;
    orderly = (All-middle IsOrderly us (telling p) vs k.orderly).1;
    dark = k.dark;
    blank = k.blank;
    insertable = k.insertable;
    fresh = inr (
        owes-told h (behind s (dispatch_event (event_of changed_status p) s.table)) es _ (
          rw (drop-append s.table.calls _)
            (any-told h (event_of changed_status p) s.table.event_handlers k.heard)));
  }

  -- A step of a pending thread.
  pub moved :
      (t : Pending)
      → IsLive h s es d (us ++ t ∷ vs) hs
      → let (s', more) = advance t s.table in
        IsLive h (behind s s') (noticed s s' es) d (us ++ (more ++ vs)) hs
  unfolding advance
  moved (updating p status) k =
      written (updating p status) (not (status_eq (s.table.cell p).status status)) p status
        (All-middle IsOrderly us (updating p status) vs k.orderly).0 k
  moved (waking p) k =
      written (waking p) (status_eq (s.table.cell p).status asleep) p awaken (λ e. cc) k
  moved (telling p) k = told_of p k
