-- ===== src/System/Threads/Screen.antt =====
-- What stays true of the manager's threads: the table is valid, the channel connected, and the screen
-- empty; and where a station is listed, a rendering is due, or somebody still owes one.
use sleep_manager.Base.{
  ℕ, ◌≤◌, ◌<◌, ◌≡◌, ◌∙◌, Bool, true, false, ◌||◌, List, [], ◌∷◌, ◌++◌, map, any, any-append_left,
  any-append_right, All, none, some, length, drop, ◌==◌, ◌⊎◌, inl, inr, Bool-cases, arith,
}
use sleep_manager.Management.{ManagementService, ManagementEvent, participant_list}
use sleep_manager.Management.Table.{Call, step, IsProper}
use sleep_manager.Management.Invariant.{IsValid}
use sleep_manager.Management.History.{step-IsValid}
use sleep_manager.Management.Handlers.{station_found}
use sleep_manager.Management.View.{participant_list-step}
use sleep_manager.Management.Cells.{next-step}
use sleep_manager.Management.Threads.{Pending}
use sleep_manager.Management.Threads.Interleaved.{IsOrderly}
use sleep_manager.Interface.Session.{Session}
use sleep_manager.Interface.Notices.{pending, listens, IsOpen}
use sleep_manager.Interface.Open.{handles, listens-step, new_calls}
use sleep_manager.System.Threads.{
  Handler, making, inserting, responding, Drawing, fetching, drawing,
}

-- The handler `h` is still to be called.
abbrev pub is_for : ℕ → ℕ × ManagementEvent → Bool
is_for h (j, e) = j == h

-- A REFRESH is queued, or will be.
abbrev pub owes : ℕ → Session → List (ℕ × ManagementEvent) → Bool
owes h s es = pending s.channel.messages || any es (is_for h)

-- A rendering reads the list next, or stands before a null pointer.
abbrev pub is_due : Drawing → Bool
is_due fetching = true
is_due (drawing (none ∷ ps) rows) = true
is_due _ = false

-- A rendering that is under way has no rows, and no station before its first null pointer.
abbrev pub IsBlank : Drawing → Type 0
IsBlank (drawing [] rows) = rows ≡ []
IsBlank (drawing (none ∷ ps) rows) = rows ≡ []
IsBlank (drawing (some p ∷ ps) rows) = true ≡ false
IsBlank _ = Unit

-- No station is listed, or one that is comes up.
abbrev pub ComesUp : Drawing → ManagementService → Type 0
ComesUp d s = (participant_list s ≡ []) ⊎ (is_due d ≡ true)

abbrev pub IsInsertable : ℕ → Handler → Type 0
IsInsertable n (inserting received p) = p < n
IsInsertable n _ = Unit

pub record IsLive (h : ℕ) (s : Session) (es : List (ℕ × ManagementEvent)) (d : Drawing)
    (ts : List Pending) (hs : List Handler) : Type 0 where
  pub heard : listens h s.table.event_handlers ≡ true
  pub valid : IsValid s.table
  pub open_ : IsOpen (handles s.input_over) s.channel
  pub orderly : All IsOrderly ts
  pub dark : s.screen ≡ []
  pub blank : IsBlank d
  pub insertable : All (IsInsertable s.table.next) hs
  pub fresh : ComesUp d s.table ⊎ (owes h s es ≡ true)

IsInsertable-later :
    (m n : ℕ) (hs : List Handler) → m ≤ n → All (IsInsertable m) hs → All (IsInsertable n) hs
IsInsertable-later m n [] le _ = tt
IsInsertable-later m n (making received ∷ hs) le (_, k) = (tt, IsInsertable-later m n hs le k)
IsInsertable-later m n (responding received ∷ hs) le (_, k) = (tt, IsInsertable-later m n hs le k)
IsInsertable-later m n (inserting received p ∷ hs) le (hp, k) =
    (omega arith, IsInsertable-later m n hs le k)

pub any-told :
    (h : ℕ) (e : ManagementEvent) (js : List ℕ)
    → listens h js ≡ true
    → any (map (λ j. (j, e)) js) (is_for h) ≡ true
any-told h e [] l = cc
any-told h e (j ∷ js) l = ground (arith, any-told h e js)

-- More notices owe no less.
pub owes-append :
    (h : ℕ) (s : Session) (t : ManagementService) (es more : List (ℕ × ManagementEvent))
    → owes h s es ≡ true
    → owes h (record s { table = t }) (es ++ more) ≡ true
owes-append h s t es more e = ground (arith, any-append_left es more (is_for h))

pub owes-told :
    (h : ℕ) (s : Session) (es more : List (ℕ × ManagementEvent))
    → any more (is_for h) ≡ true
    → owes h s (es ++ more) ≡ true
owes-told h s es more e = ground (arith, any-append_right es more (is_for h) e)

called-fresh :
    (h : ℕ) (c : Call) (s : Session) (es : List (ℕ × ManagementEvent)) (d : Drawing)
    (ts : List Pending) (hs : List Handler)
    → IsLive h s es d ts hs
    → let s' = record s { table = (step s.table c).0 } in
      let es' = es ++ drop (length s.table.calls) (step s.table c).0.calls in
      ComesUp d s'.table ⊎ (owes h s' es' ≡ true)
called-fresh h c s es d ts hs k = elim (Bool-cases (step s.table c).1) [
  | inl done ↦
      let (p, e) = station_found s.table c k.valid done in
      inr (
        owes-told h (record s { table = (step s.table c).0 }) es
          (drop (length s.table.calls) (step s.table c).0.calls)
          (rw (new_calls s.table c, done, e) (any-told h _ s.table.event_handlers k.heard)))
  | inr refused ↦ elim k.fresh [
    | inl (inl unlisted) ↦ inl (inl (participant_list-step s.table c k.valid refused ∙ unlisted))
    | inl (inr due) ↦ inl (inr due)
    | inr owed ↦ inr (
        owes-append h s (step s.table c).0 es (drop (length s.table.calls) (step s.table c).0.calls)
          owed)
  ]
]

-- A proper call of the table.
pub called :
    (h : ℕ) (c : Call) (s : Session) (es : List (ℕ × ManagementEvent)) (d : Drawing)
    (ts : List Pending) (hs : List Handler)
    → IsProper s.table c
    → IsLive h s es d ts hs
    → IsLive h
        (record s { table = (step s.table c).0 })
        (es ++ drop (length s.table.calls) (step s.table c).0.calls)
        d
        ts
        hs
called h c s es d ts hs proper k =
    let later = next-step s.table c k.valid in
    record {
      heard = listens-step h s.table c k.valid k.heard;
      valid = step-IsValid s.table c proper k.valid;
      open_ = k.open_;
      orderly = k.orderly;
      dark = k.dark;
      blank = k.blank;
      insertable = IsInsertable-later s.table.next (step s.table c).0.next hs later k.insertable;
      fresh = called-fresh h c s es d ts hs k;
    }
