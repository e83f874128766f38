-- ===== src/System/Threads/Progress.antt =====
-- How what is under way in the threads of the manager comes to its end.
use sleep_manager.Base.{
  ℕ, ◌≡◌, ◌∙◌, refl, ap, subst, ◌⊎◌, inl, inr, none, some, Bool, true, false, not, List, [], ◌∷◌,
  ◌++◌, Option,
}
use sleep_manager.Address.{Junk}
use sleep_manager.WorkStation.{WorkStation, Status, awaken, asleep, status_eq}
use sleep_manager.Channel.{Mpsc}
use sleep_manager.Management.{
  ManagementService, ManagementEvent, participant_list, set_status, dispatch_event,
}
use sleep_manager.System.Threads.Screen.{IsBlank}
use sleep_manager.System.Threads.Rendering.{list-IsBlank}
use sleep_manager.Management.Threads.{Pending, updating, waking, telling, advance, write_if}
use sleep_manager.Socket.{Env}
use sleep_manager.Socket.Udp.{Faults}
use sleep_manager.Interface.{ManagerIfaceMsg}
use sleep_manager.Interface.Session.{on_event}
use sleep_manager.System.Threads.{
  Process, Drawing, idle, fetching, drawing, table_moves, moves, tells, fetches, shows, Reach, here,
  next,
}

pub then_ :
    {h : ℕ} {env : Env} {faults : Faults} {junk : Junk} {x y z : Process}
    → Reach h env faults junk x y
    → Reach h env faults junk y z
    → Reach h env faults junk x z
then_ run here = run
then_ run (next more m) = next (then_ run more) m

module _ (h : ℕ) (env : Env) (faults : Faults) (junk : Junk) where
  abbrev pub Runs : Process → Process → Type 0
  Runs x y = Reach h env faults junk x y

  -- A rendering that stands before a null pointer, with no rows.
  abbrev pub IsBroken : Drawing → Type 0
  IsBroken d = (ps : List (Option ℕ)) × (d ≡ drawing (none ∷ ps) [])

  abbrev pub Drawn : Process → List WorkStation → Drawing → Process
  Drawn x r d = record x { session = record (x.session) { screen = r }; drawing = d }

  -- What a rendering comes to: its end, or a null pointer.
  abbrev pub Finishes : Process → Type 0
  Finishes x =
      (r : List WorkStation) × (d : Drawing) × Runs x (Drawn x r d) × ((d ≡ idle) ⊎ IsBroken d)

  draw :
      (ps : List (Option ℕ)) (rows : List WorkStation) (x : Process)
      → x.drawing ≡ drawing ps rows
      → IsBlank (drawing ps rows)
      → Finishes x
  draw [] rows x e b = (rows, idle, next here (shows x rows e), inl refl)
  draw (none ∷ ps) rows x e b =
      let stands : x.drawing ≡ drawing (none ∷ ps) [] = e ∙ ap (drawing (none ∷ ps)) b in
      (
        x.session.screen,
        drawing (none ∷ ps) [],
        subst (λ (d : Drawing). Runs x (record x { drawing = d })) stands here,
        inr (ps, refl),
      )
  draw (some p ∷ ps) rows x e b = absurd (cc)

  pub finish_drawing : (d : Drawing) (x : Process) → x.drawing ≡ d → IsBlank d → Finishes x
  unfolding participant_list
  finish_drawing idle x e b = (
    x.session.screen,
    idle,
    subst (λ (d : Drawing). Runs x (record x { drawing = d })) e here,
    inl refl,
  )
  finish_drawing fetching x e b =
      let y = record x { drawing = drawing (participant_list x.session.table) [] } in
      let (r, d, run, end) =
        draw (participant_list x.session.table) [] y refl
          (list-IsBlank x.session.table.mac_address_index) in
      (r, d, then_ (next here (fetches x e)) run, end)
  finish_drawing (drawing ps rows) x e b = draw ps rows x e b

  -- Handlers that are still to be called are called.
  pub deliver :
      (es : List (ℕ × ManagementEvent)) (x : Process)
      → x.notices ≡ es
      → (c : Mpsc ManagerIfaceMsg) × Runs x
          (record x { session = record (x.session) { channel = c }; notices = [] })
  deliver [] x e = (x.session.channel, subst (λ es. Runs x (record x { notices = es })) e here)
  deliver ((j, v) ∷ es) x e =
      let c = on_event h j x.session.channel in
      let (d, run) =
        deliver es (record x { session = record (x.session) { channel = c }; notices = es }) refl in
      (d, then_ (next here (tells x [] es j v e)) run)

  -- What a pending thread leaves behind.
  abbrev pub Moved :
      Process → ManagementService → List (ℕ × ManagementEvent) → List Pending → Process
  Moved x t es ts = record x {
    session = record (x.session) { table = t };
    notices = es;
    pending = ts;
  }

  abbrev pub Clears : Process → List Pending → Type 0
  Clears x ts =
      (t : ManagementService) × (es : List (ℕ × ManagementEvent)) × (participant_list t
        ≡ participant_list x.session.table)
      × Runs x (Moved x t es ts)

  clear_telling :
      (p : ℕ) (ts : List Pending) (x : Process) → x.pending ≡ telling p ∷ ts → Clears x ts
  unfolding advance table_moves dispatch_event participant_list
  clear_telling p ts x e = (_, _, refl, next here (moves x [] ts (telling p) e))

  clear_write :
      (t : Pending) (test : Bool) (p : ℕ) (status : Status) (ts : List Pending) (x : Process)
      → x.pending ≡ t ∷ ts
      → advance t x.session.table ≡ write_if test p status x.session.table
      → Clears x ts
  unfolding write_if table_moves set_status participant_list
  clear_write t true p status ts x e w =
      let s = (write_if true p status x.session.table).0 in
      let y = record (table_moves s x) { pending = telling p ∷ ts } in
      let written : Runs x y =
        subst
          (λ (r : ManagementService × List Pending).
            Runs x (record (table_moves r.0 x) { pending = r.1 ++ ts }))
          w (next here (moves x [] ts t e)) in
      let (u, es, same, run) = clear_telling p ts y refl in (u, es, same, then_ written run)
  clear_write t false p status ts x e w = (
    _,
    _,
    refl,
    subst
        (λ (r : ManagementService × List Pending).
          Runs x (record (table_moves r.0 x) { pending = r.1 ++ ts }))
        w (next here (moves x [] ts t e)),
  )

  clear_one : (t : Pending) (ts : List Pending) (x : Process) → x.pending ≡ t ∷ ts → Clears x ts
  unfolding advance
  clear_one (telling p) ts x e = clear_telling p ts x e
  clear_one (updating p status) ts x e =
      clear_write (updating p status) (not (status_eq (x.session.table.cell p).status status)) p
        status ts x e refl
  clear_one (waking p) ts x e =
      clear_write (waking p) (status_eq (x.session.table.cell p).status asleep) p awaken ts x e refl

  -- The status reports and the wakeups that are under way are finished.
  pub clear : (ts : List Pending) (x : Process) → x.pending ≡ ts → Clears x []
  clear [] x e =
      (x.session.table, x.notices, refl, subst (λ ts. Runs x (record x { pending = ts })) e here)
  clear (t ∷ ts) x e =
      let (s, es, same, run) = clear_one t ts x e in
      let (u, fs, same', more) = clear ts (Moved x s es ts) refl in
      (u, fs, same' ∙ same, then_ run more)
