-- ===== src/System/Threads/Rendering.antt =====
-- What the interface of src/interface.cpp does with its messages, a station of a rendering at a time.
use sleep_manager.Base.{
  ℕ, ◌≡◌, refl, subst, true, false, List, [], ◌∷◌, ◌++◌, map, any, any-middle, Option, none, some,
  length, replicate, inl, inr, arith, Bool-cases, ◌⊎◌,
}
use sleep_manager.Base.Map.{Map, values}
use sleep_manager.WorkStation.{WorkStation}
use sleep_manager.Channel.{Mpsc, message, send, drop_sender, receive_pass}
use sleep_manager.Management.{ManagementEvent, participant_list}
use sleep_manager.Management.Threads.{Pending}
use sleep_manager.Interface.{ManagerIfaceMsg, manager_iface_exit}
use sleep_manager.Interface.Session.{Session, on_event, input_ends}
use sleep_manager.Interface.Notices.{
  pending, IsOpen, receives as receive_cases, on_event-IsOpen, on_event-pending, on_event_self,
  drop_sender-pending, send-pending,
}
use sleep_manager.Interface.Open.{handles, input_ends-IsOpen}
use sleep_manager.System.Threads.{Handler, Drawing, idle, fetching, drawing}
use sleep_manager.System.Threads.Screen.{is_for, owes, is_due, IsBlank, IsLive}

-- The call of a handler.
pub notified :
    (h : ℕ) (s : Session) (us vs : List (ℕ × ManagementEvent)) (j : ℕ) (e : ManagementEvent)
    (d : Drawing) (ts : List Pending) (hs : List Handler)
    → IsLive h s (us ++ (j, e) ∷ vs) d ts hs
    → IsLive h (record s { channel = on_event h j s.channel }) (us ++ vs) d ts hs
notified h s us vs j e d ts hs k = record {
  heard = k.heard;
  valid = k.valid;
  open_ = on_event-IsOpen (handles s.input_over) h j s.channel k.open_;
  orderly = k.orderly;
  dark = k.dark;
  blank = k.blank;
  insertable = k.insertable;
  fresh = elim k.fresh [ inl same ↦ inl same | inr owed ↦ inr (still owed) ];
}
  where
    still :
        owes h s (us ++ (j, e) ∷ vs) ≡ true
        → owes h (record s { channel = on_event h j s.channel }) (us ++ vs) ≡ true
    still owed = elim (Bool-cases (pending s.channel.messages)) [
      | inl queued ↦ rw (on_event-pending h j s.channel queued)
      | inr none_ ↦ elim (Bool-cases (any (us ++ (j, e) ∷ vs) (is_for h))) [
        | inl noticed ↦ elim (any-middle us (j, e) vs (is_for h) noticed) [
          | inl this ↦ rw (on_event_self h j s.channel this)
          | inr other ↦ ground (arith, other)
        ]
        | inr unnoticed ↦ ground arith
      ]
    ]

input_ends-pending :
    (s : Session)
    → pending s.channel.messages ≡ true
    → pending (input_ends s).channel.messages ≡ true
unfolding input_ends
input_ends-pending s queued =
    drop_sender-pending (drop_sender (send manager_iface_exit s.channel).0) (
      drop_sender-pending (send manager_iface_exit s.channel).0
        (send-pending manager_iface_exit s.channel queued))

pub input_ends-IsLive :
    (h : ℕ) (s : Session) (es : List (ℕ × ManagementEvent)) (d : Drawing) (ts : List Pending)
    (hs : List Handler)
    → s.input_over ≡ false
    → IsLive h s es d ts hs
    → IsLive h (input_ends s) es d ts hs
unfolding input_ends
input_ends-IsLive h s es d ts hs running k = record {
  heard = k.heard;
  valid = k.valid;
  open_ = input_ends-IsOpen s running k.open_;
  orderly = k.orderly;
  dark = k.dark;
  blank = k.blank;
  insertable = k.insertable;
  fresh = elim k.fresh [
    | inl same ↦ inl same
    | inr owed ↦ inr (ground (arith, owed, input_ends-pending s))
  ];
}

-- What is left open by a receive that returns a message.
received-IsOpen :
    (n : ℕ) (c d : Mpsc ManagerIfaceMsg) (m : ManagerIfaceMsg)
    → IsOpen n c
    → receive_pass c ≡ (d, message m)
    → IsOpen n d
received-IsOpen n c d m o e = elim (receive_cases n c o) [
  | inl w ↦ absurd (cc)
  | inr (m', d', r, o') ↦ let same : d' ≡ d = cc in subst (IsOpen n) same o'
]

-- The list of the participants starts with a null pointer, unless it is empty.
pub list-IsBlank :
    (m : Map ℕ) → IsBlank (drawing (replicate (length m) none ++ map some (values m)) [])
unfolding values
list-IsBlank [] = refl
list-IsBlank (e ∷ m) = refl

list_due :
    (m : Map ℕ)
    → let ps = replicate (length m) none ++ map some (values m) in
      (ps ≡ []) ⊎ (is_due (drawing ps []) ≡ true)
unfolding values
list_due [] = inl refl
list_due (e ∷ m) = inr refl

module _ {h : ℕ} {s : Session} {es : List (ℕ × ManagementEvent)} {ts : List Pending}
    {hs : List Handler} where
  -- A REFRESH is taken.
  pub taken :
      (c : Mpsc ManagerIfaceMsg) (m : ManagerIfaceMsg)
      → receive_pass s.channel ≡ (c, message m)
      → IsLive h s es idle ts hs
      → IsLive h (record s { channel = c }) es fetching ts hs
  taken c m e k = record {
    heard = k.heard;
    valid = k.valid;
    open_ = received-IsOpen (handles s.input_over) s.channel c m k.open_ e;
    orderly = k.orderly;
    dark = k.dark;
    blank = tt;
    insertable = k.insertable;
    fresh = inl (inr refl);
  }

  pub fetched :
      IsLive h s es fetching ts hs → IsLive h s es (drawing (participant_list s.table) []) ts hs
  unfolding participant_list
  fetched k = record {
    heard = k.heard;
    valid = k.valid;
    open_ = k.open_;
    orderly = k.orderly;
    dark = k.dark;
    blank = list-IsBlank s.table.mac_address_index;
    insertable = k.insertable;
    fresh = inl (list_due s.table.mac_address_index);
  }

  -- No rendering gets to a station.
  pub drawn-blank :
      {A : Type 0} (p : ℕ) (ps : List (Option ℕ)) (rows : List WorkStation)
      → IsLive h s es (drawing (some p ∷ ps) rows) ts hs
      → A
  drawn-blank p ps rows k = let never = k.blank in absurd (cc)

  pub finished :
      (rows : List WorkStation)
      → IsLive h s es (drawing [] rows) ts hs
      → IsLive h (record s { screen = rows }) es idle ts hs
  finished rows k = record {
    heard = k.heard;
    valid = k.valid;
    open_ = k.open_;
    orderly = k.orderly;
    dark = k.blank;
    blank = tt;
    insertable = k.insertable;
    fresh = elim k.fresh [
      | inl (inl unlisted) ↦ inl (inl unlisted)
      | inl (inr due) ↦ absurd (cc)
      | inr owed ↦ inr owed
    ];
  }
