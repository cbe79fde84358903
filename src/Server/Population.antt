-- ===== src/Server/Population.antt =====
-- The list of clients against its specification: the requests of those who are connected, in the order
-- in which they came.
use local_server_c.Base.{
  ℕ, zero, suc, ◌<◌, ◌^◌, ◌≡◌, ◌≢◌, refl, sym, ap, ◌∙◌, Option, none, some, Bool, true, false, not,
  if◌then◌else◌, ℤ, List, [], ◌∷◌, ◌++◌, ◌==◌, map, length, length-map, map-append, map-remove_at,
  get_elem?, get_elem?-some, get_elem?-map, remove_at, pos, All, arith,
}
use mathlib.Core.Path.{subst}
use local_server_c.Queue.{ShmRequest}
use local_server_c.LinkedList.Memory.{Run, Ptr, null, Handle, Heap, Returns-ok}
use local_server_c.LinkedList.{AddEnv, list_add, list_remove}
use local_server_c.LinkedList.Chain.{Entry, first, Node, Chain, IsList, load_value-ok}
use local_server_c.LinkedList.Add.{Added, added, list_add-append}
use local_server_c.LinkedList.Remove.{erase, contains}
use local_server_c.LinkedList.Removal.{Removed, list_remove-erase}
use local_server_c.Server.{thread_error, request_cmp, allocate_request_ressources, remove_client}
use local_server_c.Server.Crowd.{Crowd, Event, arrives, departs, arrive, depart, happen, history}

-- No request has the number.
abbrev pub IsNew : ℕ → List ShmRequest → Type 0
IsNew pid rs = All (λ r. r.pid ≢ pid) rs

abbrev pub Unique : List ShmRequest → Type 0
Unique [] = Unit
Unique (r ∷ rs) = IsNew r.pid rs × Unique rs

-- The specification: what an event makes of the requests of those who are connected.
abbrev pub after : Event → List ShmRequest → List ShmRequest
after (arrives env request) rs = rs ++ request ∷ []
after (departs i) rs = remove_at i rs

abbrev pub after_all : List Event → List ShmRequest → List ShmRequest
after_all [] rs = rs
after_all (e ∷ es) rs = after_all es (after e rs)

-- The list at `p` holds these requests, each with a thread that works on its copy, and is free.
pub record Represents (p : Ptr) (c : Crowd) (rs : List ShmRequest) : Type 0 where
  pub handle : Handle
  pub entries : List (Entry ShmRequest)
  pub list : IsList c.heap p handle entries
  pub free : handle.mutex ≢ 0
  pub items : map (λ e. e.item) entries ≡ rs
  pub values : map (λ e. e.value) entries ≡ c.threads
  pub unique : Unique rs

-- The calls of the event work: memory is new, there is room, and the number of the client is not that
-- of another one; a thread that ends is there.
abbrev pub Allowed : Event → Crowd → List ShmRequest → Type 0
Allowed (arrives env request) c rs =
    (env.wait ≡ true)
    × (env.post ≡ true)
    × (env.cell ≢ null)
    × (env.value ≢ null)
    × (c.heap.cells env.cell ≡ none)
    × (c.heap.values env.value ≡ none)
    × IsNew request.pid rs
    × (suc (length rs) < 2 ^ 64)
Allowed (departs i) c rs = i < length rs

-- Every event is allowed where the history has come to.
abbrev pub AllAllowed : Ptr → List Event → Crowd → List ShmRequest → Type 0
AllAllowed p [] c rs = Unit
AllAllowed p (e ∷ es) c rs =
    Allowed e c rs × ((c' : Crowd) → happen p e c ≡ some c' → AllAllowed p es c' (after e rs))

Unique-snoc :
    (rs : List ShmRequest) (r : ShmRequest) → Unique rs → IsNew r.pid rs → Unique (rs ++ r ∷ [])
Unique-snoc [] r u new = (tt, tt)
Unique-snoc (x ∷ rs) r u new = (front rs u.0, Unique-snoc rs r u.1 new.1)
  where
    front : (ys : List ShmRequest) → IsNew x.pid ys → IsNew x.pid (ys ++ r ∷ [])
    front [] h = ((λ e. new.0 (sym e)), tt)
    front (y ∷ ys) h = (h.0, front ys h.1)

IsNew-remove_at : (pid i : ℕ) (rs : List ShmRequest) → IsNew pid rs → IsNew pid (remove_at i rs)
IsNew-remove_at pid i [] h = tt
IsNew-remove_at pid zero (r ∷ rs) h = h.1
IsNew-remove_at pid (suc i) (r ∷ rs) h = (h.0, IsNew-remove_at pid i rs h.1)

Unique-remove_at : (i : ℕ) (rs : List ShmRequest) → Unique rs → Unique (remove_at i rs)
Unique-remove_at i [] u = tt
Unique-remove_at zero (r ∷ rs) u = u.1
Unique-remove_at (suc i) (r ∷ rs) u = (IsNew-remove_at r.pid i rs u.0, Unique-remove_at i rs u.1)

IsNew-at :
    (pid i : ℕ) (es : List (Entry ShmRequest)) (e : Entry ShmRequest)
    → get_elem? es i ≡ some e
    → IsNew pid (map (λ e. e.item) es)
    → e.item.pid ≢ pid
IsNew-at pid i [] e at new = cc
IsNew-at pid zero (d ∷ es) e at new = ground (arith, new.0)
IsNew-at pid (suc i) (d ∷ es) e at new = IsNew-at pid i es e at new.1

-- Numbers being unique, the entry that `request_cmp` finds is that of the thread.
erase-remove_at :
    (i : ℕ) (es : List (Entry ShmRequest)) (e : Entry ShmRequest)
    → get_elem? es i ≡ some e
    → Unique (map (λ e. e.item) es)
    → (erase request_cmp e.item es ≡ remove_at i es) × (contains request_cmp e.item es ≡ true)
unfolding erase contains request_cmp
erase-remove_at i [] e at u = cc
erase-remove_at zero (d ∷ es) e at u = ground arith
erase-remove_at (suc i) (d ∷ es) e at u =
    ground (arith, IsNew-at d.item.pid i es e at u.0, erase-remove_at i es e at u.1)

Chain-at :
    (h : Heap ShmRequest) (es : List (Entry ShmRequest)) (stop : Ptr) (i : ℕ) (e : Entry ShmRequest)
    → Chain h es stop
    → get_elem? es i ≡ some e
    → (q : Ptr) × Node h e q
Chain-at h [] stop i e c at = cc
Chain-at h (d ∷ es) stop zero e c at =
    let same : d ≡ e = cc in (first es stop, subst (λ x. Node h x (first es stop)) same c.0)
Chain-at h (d ∷ es) stop (suc i) e c at = Chain-at h es stop i e c.1 at

module _ (p : Ptr) (c : Crowd) (rs : List ShmRequest) (rep : Represents p c rs) where
  entries-IsNew : (pid : ℕ) → IsNew pid rs → IsNew pid (map (λ e. e.item) rep.entries)
  entries-IsNew pid new = subst (IsNew pid) (sym rep.items) new

  -- The result of `allocate_request_ressources` once the request is in the list.
  abbrev pub started : AddEnv → Bool → Bool → ℤ × Option Ptr
  started env created detached =
      if not created
      then (thread_error, none)
      else if not detached
      then (thread_error, some env.value)
      else (pos 1, some env.value)

  pub allocate_request_ressources-Represents :
      (env : AddEnv) (request : ShmRequest) (created detached : Bool)
      → Allowed (arrives env request) c rs
      → (g : Heap ShmRequest) × (allocate_request_ressources env created detached p request c.heap
          ≡ Run.ok (started env created detached) g)
        × Represents p
            (record { heap = g; threads = c.threads ++ env.value ∷ [] })
            (rs ++ request ∷ [])
  unfolding allocate_request_ressources
  allocate_request_ressources-Represents env request created detached
        (waits, posts, cell_ne, value_ne, cell_free, value_free, new, room) =
      let es = rep.entries in
      let size : length es ≡ length rs = sym (length-map (λ e. e.item) es) ∙ ap length rep.items in
      let (r, g, e, a) =
        Returns-ok (Added c.heap p rep.handle es (added env request))
          (list_add env p (some request) c.heap)
          (list_add-append env request c.heap p rep.handle waits posts cell_ne value_ne cell_free
            value_free rep.free es rep.list (omega (arith, size))) in
      let not_null : (env.value == null) ≡ false = ground arith in
      (
        g,
        simp (e, a.result, not_null, allocate_request_ressources),
        record {
          handle = a.handle;
          entries = es ++ added env request ∷ [];
          list = a.list;
          free = λ z. rep.free (sym a.mutex ∙ z);
          items =
              map-append (λ e. e.item) es (added env request ∷ [])
              ∙ ap (λ l. l ++ request ∷ []) rep.items;
          values =
              map-append (λ e. e.value) es (added env request ∷ [])
              ∙ ap (λ l. l ++ env.value ∷ []) rep.values;
          unique = Unique-snoc rs request rep.unique new;
        },
      )

  arrive-Represents :
      (env : AddEnv) (request : ShmRequest)
      → Allowed (arrives env request) c rs
      → (c' : Crowd) × (arrive p env request c ≡ some c') × Represents p c' (rs ++ request ∷ [])
  unfolding arrive
  arrive-Represents env request ok =
      let (g, run, next) = allocate_request_ressources-Represents env request true true ok in
      (record { heap = g; threads = c.threads ++ env.value ∷ [] }, simp (run, arrive), next)

  depart-Represents :
      (i : ℕ)
      → i < length rs
      → (c' : Crowd) × (depart p i c ≡ some c') × Represents p c' (remove_at i rs)
  unfolding depart remove_client
  depart-Represents i inside =
      let es = rep.entries in
      let size : length es ≡ length rs = sym (length-map (λ e. e.item) es) ∙ ap length rep.items in
      let (e, at) = get_elem?-some es i (omega (arith, size)) in
      let (q, node) = Chain-at c.heap es null i e rep.list.chain at in
      let (rest, is_in) = erase-remove_at i es e at (subst Unique (sym rep.items) rep.unique) in
      let thread : get_elem? c.threads i ≡ some e.value =
        subst (λ l. get_elem? l i ≡ some e.value) rep.values
          (get_elem?-map (λ e. e.value) es i e at) in
      let (r, g, run, removed) =
        Returns-ok (Removed request_cmp e.item c.heap p rep.handle es)
          (list_remove request_cmp true true p (some e.item) c.heap)
          (list_remove-erase request_cmp e.item c.heap p rep.handle rep.free es rep.list) in
      let one : r ≡ pos 1 = removed.result ∙ simp is_in in
      (
        record { heap = g; threads = remove_at i c.threads },
        simp (thread, load_value-ok node, run, one, remove_client, depart),
        record {
          handle = removed.handle;
          entries = remove_at i es;
          list = subst (IsList g p removed.handle) rest removed.list;
          free = λ z. rep.free (sym removed.mutex ∙ z);
          items = map-remove_at (λ e. e.item) i es ∙ ap (remove_at i) rep.items;
          values = map-remove_at (λ e. e.value) i es ∙ ap (remove_at i) rep.values;
          unique = Unique-remove_at i rs rep.unique;
        },
      )

-- An event keeps the list equal to its specification.
happen-Represents :
    (p : Ptr) (e : Event) (c : Crowd) (rs : List ShmRequest)
    → Represents p c rs
    → Allowed e c rs
    → (c' : Crowd) × (happen p e c ≡ some c') × Represents p c' (after e rs)
unfolding happen
happen-Represents p (arrives env request) c rs rep ok = arrive-Represents p c rs rep env request ok
happen-Represents p (departs i) c rs rep ok = depart-Represents p c rs rep i ok

-- Whatever the order in which clients come and threads end, when the calls work and the numbers of the
-- clients who are connected are different, no call faults or waits: after any history the list holds
-- exactly the requests of those who are connected, in the order in which they came, its structure is
-- sound and its mutex free, and every thread still has its own copy.
pub history-Represents :
    (p : Ptr) (es : List Event) (c : Crowd) (rs : List ShmRequest)
    → Represents p c rs
    → AllAllowed p es c rs
    → (c' : Crowd) × (history p es c ≡ some c') × Represents p c' (after_all es rs)
unfolding history
history-Represents p [] c rs rep ok = (c, refl, rep)
history-Represents p (e ∷ es) c rs rep (first, later) =
    let (d, now, next) = happen-Represents p e c rs rep first in
    let (c', run, last) = history-Represents p es d (after e rs) next (later d now) in
    (c', simp (now, history) run, last)
