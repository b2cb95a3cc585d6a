-- ===== src/Thread/Creation.antt =====
-- thread_create of threads/thread.c, with the new thread's place in its family.
use cs439_pcs.Base.{ℕ, ◌≤◌, false, some}
use cs439_pcs.Base.{List, [], ◌∷◌, ◌++◌, ◌≡◌, ◌≢◌, refl, ap, ◌∙◌, inl, inr, arith}
use cs439_pcs.Base.{◌==◌, leb, if◌then◌else◌, Bool-cases, ==_ne, le→leb}
use cs439_pcs.Thread.{Kernel, put, is_thread}
use cs439_pcs.Thread.{thread_unblock, thread_get_priority, thread_yield, pri_max}
use cs439_pcs.Thread.{pri_min}
use cs439_pcs.Thread.{Family, ChildProcess, thread_tid, thread_current}
use cs439_pcs.Thread.Invariant.{IsReady}
use cs439_pcs.Thread.Create.{rear, new_child}
use cs439_pcs.Thread.Create.{add_child_proc, create_blocked, put_family, no_family}
use cs439_pcs.Thread.Create.{init_thread, blank_thread, allocate_tid, thread_create}
use cs439_pcs.Thread.Invariant.{HasPlace, IsScheduled, IsOrdered}
use cs439_pcs.Thread.Invariant.{Alike, trans_Alike}
use cs439_pcs.Thread.Queue.{
  current_runs, unblock_runs, queued-IsScheduled, queued, queued-Alike, queued-IsOrdered,
}
use cs439_pcs.Thread.Yield.{thread_yield-Rescheduled}
use cs439_pcs.Thread.Birth.{
  IsUnused, IsBorn, born, born_self, born_live, blank_blocked, own_priority, born-IsScheduled,
  born-IsOrdered, queued_context, queued_all, queued_tids,
}

-- The state before thread_unblock: what the relatives of the threads are told is beside the
-- scheduler's state.
abbrev pub reared : Kernel → (ℕ → Family) → (ℕ → ChildProcess) → Kernel
reared k f c = record k { family = f; children = c }

pub reared-IsScheduled :
    (k : Kernel) (f : ℕ → Family) (c : ℕ → ChildProcess)
    → IsScheduled k
    → IsScheduled (reared k f c)
unfolding IsReady is_thread HasPlace
reared-IsScheduled k f c s = record {
  runs = s.runs;
  live = s.live;
  ready_threads = s.ready_threads;
  distinct = s.distinct;
  idle = s.idle;
  places = s.places;
}

reared_current :
    (k : Kernel) (f : ℕ → Family) (c : ℕ → ChildProcess)
    → IsScheduled k
    → thread_current (reared k f c) ≡ some k.current
reared_current k f c s = current_runs (reared k f c) (reared-IsScheduled k f c s)

reared_tid :
    (k : Kernel) (f : ℕ → Family) (c : ℕ → ChildProcess)
    → IsScheduled k
    → thread_tid (reared k f c) ≡ some (k.threads k.current).tid
unfolding thread_tid
reared_tid k f c s = rw (reared_current k f c s) refl

reared_child :
    (k : Kernel) (f : ℕ → Family) (c : ℕ → ChildProcess) (child tid : ℕ)
    → IsScheduled k
    → (cp : ℕ) × (f' : ℕ → Family) × (c' : ℕ → ChildProcess) × (add_child_proc
          (reared k f c)
          child
          tid
        ≡ some (cp, reared k f' c'))
unfolding add_child_proc
reared_child k f c child tid s = elim (Bool-cases (child == 0)) [
  | inl q ↦ (0, f, c, rw (reared_current k f c s, q) refl)
  | inr q ↦ (
    child,
    λ u.
        if k.current == u
        then record (f k.current) { child_list = (f k.current).child_list ++ child ∷ [] }
        else f u,
    λ x. if x == child then new_child tid else c x,
    rw (reared_current k f c s, q) refl,
  )
]

-- The members of one thread replaced.
abbrev put_in : (ℕ → Family) → ℕ → Family → ℕ → Family
put_in f t x = λ u. if t == u then x else f u

rear_runs :
    (k : Kernel) (f : ℕ → Family) (c : ℕ → ChildProcess) (page child dir tid : ℕ)
    → IsScheduled k
    → (f' : ℕ → Family) × (c' : ℕ → ChildProcess) × (rear (reared k f c) page child dir tid
        ≡ some (reared k f' c'))
unfolding rear
rear_runs k f c page child dir tid s =
    let f1 = put_in f page (record (f page) { parent = (k.threads k.current).tid }) in
    let (cp, f2, c2, e) = reared_child k f1 c child tid s in
    let f3 = put_in f2 page (record (f2 page) { child_proc = cp }) in
    let new_dir = if (f3 k.current).cur_dir == 0 then 0 else dir in
    (
      put_in f3 page (record (f3 page) { cur_dir = new_dir }),
      c2,
      rw (reared_tid k f c s, e, reared_current k f3 c2 s) refl,
    )

init_runs :
    (k : Kernel) (page : ℕ) (name : List ℕ) (p : ℕ)
    → page ≢ 0
    → p ≤ pri_max
    → init_thread k page name p
      ≡ some (record (put_family (put k page (blank_thread name p)) page no_family) {
        all_list = k.all_list ++ page ∷ [];
      })
unfolding init_thread
init_runs k page name p n le =
    rw (==_ne page 0 n, le→leb pri_min p (omega arith), le→leb p pri_max le) refl

-- With a page that is not in use and a priority of at most PRI_MAX, create_blocked returns the next
-- identifier.
pub create_blocked_runs :
    (k : Kernel) (page child dir : ℕ) (name : List ℕ) (p : ℕ)
    → IsScheduled k
    → IsUnused k page
    → p ≤ pri_max
    → (f : ℕ → Family) × (c : ℕ → ChildProcess) × (create_blocked k page child dir name p
        ≡ some (k.next_tid, reared (born k page name p) f c))
unfolding create_blocked allocate_tid born
create_blocked_runs k page child dir name p s n le =
    let k1 : Kernel = put_family k page no_family in
    let (f, c, e) =
      rear_runs (born k page name p) k1.family k.children page child dir k.next_tid
        (born-IsScheduled k page name p n s) in
    (f, c, rw (init_runs k page name p n.there le, e) refl)

create_runs :
    (k k3 k4 k5 : Kernel) (page child dir : ℕ) (name : List ℕ) (p own tid : ℕ)
    → page ≢ 0
    → create_blocked k page child dir name p ≡ some (tid, k3)
    → thread_unblock k3 page ≡ some k4
    → thread_get_priority k4 ≡ some own
    → (if leb own p then thread_yield k4 else some k4) ≡ some k5
    → thread_create k page child dir name p ≡ some (some tid, k5)
unfolding thread_create
create_runs k k3 k4 k5 page child dir name p own tid n b u g y =
    rw (==_ne page 0 n, b, u, g, y) refl

-- With a page that is not in use and a priority of at most PRI_MAX, thread_create outside an
-- interrupt returns the next identifier. The scheduler's state is in order, the ready list goes
-- down by priority if it did before, the new thread is the last of all threads, and every thread is
-- as it was, the new one as init_thread made it with its identifier, but for their statuses.
pub thread_create-IsBorn :
    (k : Kernel) (page child dir : ℕ) (name : List ℕ) (p : ℕ)
    → IsScheduled k
    → k.in_external_intr ≡ false
    → IsUnused k page
    → p ≤ pri_max
    → (k' : Kernel) × (thread_create k page child dir name p ≡ some (some k.next_tid, k'))
      × IsBorn k page name p k'
unfolding born is_thread IsOrdered Alike
thread_create-IsBorn k page child dir name p s off n le =
    let (f, c, b) = create_blocked_runs k page child dir name p s n le in
    let k3 = reared (born k page name p) f c in
    let s3 = reared-IsScheduled (born k page name p) f c (born-IsScheduled k page name p n s) in
    let is_blocked = ap (λ x. x.status) (born_self k page name p) ∙ blank_blocked name p in
    let live = born_live k page name p n.there in
    let k4 = queued k3 page in
    let s4 = queued-IsScheduled k3 page s3 live is_blocked in
    let (own, g) = own_priority k4 s4 in
    let u = unblock_runs k3 page live is_blocked in
    let ordered : IsOrdered k → IsOrdered k4 =
      λ o. queued-IsOrdered k3 page (born-IsOrdered k page name p n o) in
    elim (Bool-cases (leb own p)) [
      | inl q ↦
          let (k5, y, z, r) = thread_yield-Rescheduled k4 s4 (queued_context k3 page ∙ off) in
          (
            k5,
            create_runs k k3 k4 k5 page child dir name p own k.next_tid n.there b u g (rw q y),
            record {
              scheduled = r.scheduled;
              ordered = λ o. (r.highest (ordered o)).0;
              alike = trans_Alike k3 k4 k5 (queued-Alike k3 page) r.alike;
              all = r.all ∙ queued_all k3 page;
              tids = r.tids ∙ queued_tids k3 page;
              context = r.context ∙ queued_context k3 page;
            },
          )
      | inr q ↦ (
        k4,
        create_runs k k3 k4 k4 page child dir name p own k.next_tid n.there b u g (rw q refl),
        record {
          scheduled = s4;
          ordered = ordered;
          alike = queued-Alike k3 page;
          all = queued_all k3 page;
          tids = queued_tids k3 page;
          context = queued_context k3 page;
        },
      )
    ]
