-- ===== src/Management/Threads/Interleaved.antt =====
-- The table of src/management.cpp under any interleaving of its threads.
use sleep_manager.Base.{
  ℕ, ◌≡◌, ◌≢◌, Bool, true, false, not, List, [], ◌∷◌, ◌++◌, Option, none, some, Bytes, All,
  All-append,
}
use sleep_manager.WorkStation.{WorkStation, Status, disconnected, asleep, awaken, status_eq}
use sleep_manager.Management.{
  ManagementService, new_service, get_by_mac_address, get_by_ip_address, get_by_hostname,
  set_status, dispatch_event, event_of, changed_status, change_status,
}
use sleep_manager.Management.Invariant.{IsValid, new_service-IsValid, change_status-IsValid}
use sleep_manager.Management.History.{step-IsValid, get-IsValid}
use sleep_manager.Management.Threads.{
  Pending, updating, waking, telling, Threads, advance, write_if, found, Step, calls, updates_,
  wakes_, moves, Reach, here, next,
}

-- No thread is about to write DISCONNECTED.
abbrev pub IsOrderly : Pending → Type 0
IsOrderly (updating p status) = status ≢ disconnected
IsOrderly _ = Unit

pub set_status-IsValid :
    (p : ℕ) (status : Status) (s : ManagementService)
    → status ≢ disconnected
    → IsValid s
    → IsValid (set_status p status s)
unfolding change_status
set_status-IsValid p status s on v =
    let w = change_status-IsValid p status s on v in
    record {
      host_key = w.host_key;
      host_made = w.host_made;
      host_on = w.host_on;
      mac_key = w.mac_key;
      mac_host = w.mac_host;
      ip_key = w.ip_key;
      ip_host = w.ip_host;
    }

pub dispatch_event-IsValid :
    (p : ℕ) (s : ManagementService)
    → IsValid s
    → IsValid (dispatch_event (event_of changed_status p) s)
unfolding dispatch_event
dispatch_event-IsValid p s v = record {
  host_key = v.host_key;
  host_made = v.host_made;
  host_on = v.host_on;
  mac_key = v.mac_key;
  mac_host = v.mac_host;
  ip_key = v.ip_key;
  ip_host = v.ip_host;
}

write_if-IsValid :
    (test : Bool) (p : ℕ) (status : Status) (s : ManagementService)
    → status ≢ disconnected
    → IsValid s
    → IsValid (write_if test p status s).0 × All IsOrderly (write_if test p status s).1
unfolding write_if
write_if-IsValid true p status s on v = (set_status-IsValid p status s on v, (tt, tt))
write_if-IsValid false p status s on v = (v, tt)

advance-IsValid :
    (t : Pending) (s : ManagementService)
    → IsOrderly t
    → IsValid s
    → IsValid (advance t s).0 × All IsOrderly (advance t s).1
unfolding advance
advance-IsValid (updating p status) s on v =
    write_if-IsValid (not (status_eq (s.cell p).status status)) p status s on v
advance-IsValid (waking p) s _ v =
    write_if-IsValid (status_eq (s.cell p).status asleep) p awaken s (λ e. cc) v
advance-IsValid (telling p) s _ v = (dispatch_event-IsValid p s v, tt)

All-split :
    (us : List Pending) (t : Pending) (vs : List Pending)
    → All IsOrderly (us ++ t ∷ vs)
    → All IsOrderly us × IsOrderly t × All IsOrderly vs
All-split [] t vs (h, hs) = (tt, h, hs)
All-split (u ∷ us) t vs (h, hs) = let (hu, ht, hv) = All-split us t vs hs in ((h, hu), ht, hv)

pub found-IsOrderly :
    (r : Option ℕ) (f : ℕ → Pending) (ts : List Pending)
    → ((p : ℕ) → IsOrderly (f p))
    → All IsOrderly ts
    → All IsOrderly (found r f ++ ts)
found-IsOrderly none f ts h hs = hs
found-IsOrderly (some p) f ts h hs = (h p, hs)

abbrev IsSound : Threads → Type 0
IsSound x = IsValid x.table × All IsOrderly x.pending

Step-IsSound : {x y : Threads} → Step x y → IsSound x → IsSound y
Step-IsSound (calls s ts c _ proper) (v, h) = (step-IsValid s c proper v, h)
Step-IsSound (updates_ s ts a status on) (v, h) =
    (v, found-IsOrderly _ (λ p. updating p status) ts (λ p. on) h)
Step-IsSound (wakes_ s ts k) (v, h) = (v, found-IsOrderly _ waking ts (λ p. tt) h)
Step-IsSound (moves s us vs t) (v, h) =
    let (hu, ht, hv) = All-split us t vs h in
    let (v', h') = advance-IsValid t s ht v in
    (
      v',
      All-append IsOrderly us ((advance t s).1 ++ vs) hu
          (All-append IsOrderly (advance t s).1 vs h' hv),
    )

Reach-IsSound : {x y : Threads} → Reach x y → IsSound x → IsSound y
Reach-IsSound here h = h
Reach-IsSound (next run m) h = Step-IsSound m (Reach-IsSound run h)

pub Reach-IsValid :
    {x : Threads} (first : ℕ) (cell : ℕ → WorkStation)
    → Reach (record { table = new_service first cell; pending = [] }) x
    → IsValid x.table
Reach-IsValid first cell run = (Reach-IsSound run (new_service-IsValid first cell, tt)).0

-- Whatever threads do to a new table, and in whatever order their steps come, also where a station
-- is removed between the lookup of a status report or a wakeup and its write: a station that a
-- lookup returns has the hostname or the address that was looked up, it is not DISCONNECTED, and the
-- lookup of its hostname returns it too. No thread reports DISCONNECTED.
pub get-Reach :
    {x : Threads} (first : ℕ) (cell : ℕ → WorkStation)
    → Reach (record { table = new_service first cell; pending = [] }) x
    → (k : Bytes) (p : ℕ)
    → let s = x.table in
      (get_by_hostname k s ≡ some p
        → ((s.cell p).addresses.hostname ≡ k) × ((s.cell p).status ≢ disconnected))
      × (get_by_mac_address k s ≡ some p
          → ((s.cell p).addresses.mac ≡ k)
            × ((s.cell p).status ≢ disconnected)
            × (get_by_hostname (s.cell p).addresses.hostname s ≡ some p))
      × (get_by_ip_address k s ≡ some p
          → ((s.cell p).addresses.ip ≡ k)
            × ((s.cell p).status ≢ disconnected)
            × (get_by_hostname (s.cell p).addresses.hostname s ≡ some p))
get-Reach first cell run k p = get-IsValid _ k p (Reach-IsValid first cell run)
