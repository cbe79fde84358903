-- ===== src/Server/Clients.antt =====
-- The list of clients from a client's arrival to its departure.
use local_server_c.Base.{
  ℕ, suc, ◌<◌, ◌^◌, ◌≡◌, ◌≢◌, ◌↔◌, refl, sym, ◌∙◌, none, some, true, false, List, [], ◌∷◌, ◌++◌,
  ◌==◌, length, ℤ, pos, All, arith,
}
use mathlib.Core.Path.{subst}
use local_server_c.Queue.{ShmRequest}
use local_server_c.LinkedList.Memory.{Ptr, null, Handle, Heap, Returns, Returns-bind}
use local_server_c.LinkedList.{AddEnv, list_add, list_remove}
use local_server_c.LinkedList.Chain.{Entry, IsList, load_value-ok, Chain-suffix}
use local_server_c.LinkedList.Add.{Added, added, list_add-append}
use local_server_c.LinkedList.Remove.{erase, contains}
use local_server_c.LinkedList.Removal.{Removed, list_remove-erase}
use local_server_c.Server.{request_cmp, allocate_request_ressources, remove_client}

-- No client of the list has the number.
abbrev pub IsNew : ℕ → List (Entry ShmRequest) → Type 0
IsNew pid es = All (λ e. e.item.pid ≢ pid) es

-- The number of a process orders requests: 0 is the same process.
request_cmp-pid : (a b : ShmRequest) → (request_cmp a b ≡ pos 0) ↔ (a.pid ≡ b.pid)
unfolding request_cmp
request_cmp-pid a b = ground arith

erase-last :
    (request : ShmRequest) (es : List (Entry ShmRequest)) (e : Entry ShmRequest)
    → e.item ≡ request
    → IsNew request.pid es
    → (erase request_cmp request (es ++ e ∷ []) ≡ es)
      × (contains request_cmp request (es ++ e ∷ []) ≡ true)
unfolding erase contains request_cmp
erase-last request [] e same new = ground arith
erase-last request (d ∷ es) e same new = ground (arith, erase-last request es e same new.1, new.0)

module _ (env : AddEnv) (request : ShmRequest) (h : Heap ShmRequest) (p : Ptr) (l : Handle)
    (free : l.mutex ≢ 0) (es : List (Entry ShmRequest)) (new : IsNew request.pid es) where
  -- What the departure leaves.
  abbrev pub Left : ℤ → Heap ShmRequest → Type 0
  Left r k = (r ≡ pos 1) × (m : Handle) × IsList k p m es × (m.mutex ≡ l.mutex)

  after_remove :
      (g : Heap ShmRequest) (m : Handle)
      → m.mutex ≡ l.mutex
      → (r : ℤ) (k : Heap ShmRequest)
      → Removed request_cmp request g p m (es ++ added env request ∷ []) r k
      → Left r k
  after_remove g m same r k removed =
      let (rest, is_in) = erase-last request es (added env request) refl new in
      (
        rw is_in at (removed.result),
        removed.handle,
        subst (λ x. IsList k p removed.handle x) rest removed.list,
        removed.mutex ∙ same,
      )

  departure :
      (r : Ptr) (g : Heap ShmRequest)
      → Added h p l es (added env request) r g
      → Returns Left (remove_client true true p env.value g)
  unfolding remove_client
  departure r g a =
      let node = (Chain-suffix g es (added env request ∷ []) null a.list.chain).0 in
      rw (load_value-ok node) (
        Returns-bind (Removed request_cmp request g p a.handle (es ++ added env request ∷ [])) Left
          (list_remove request_cmp true true p (some request) g) _
          (list_remove-erase request_cmp request g p a.handle (λ z. free (sym a.mutex ∙ z))
            (es ++ added env request ∷ []) a.list)
          λ s k removed.
            let (one, m, list, same) = after_remove g a.handle a.mutex s k removed in
            rw one (refl, m, list, same))

  module _ (waits : env.wait ≡ true) (posts : env.post ≡ true) (cell_ne : env.cell ≢ null)
      (value_ne : env.value ≢ null) (cell_free : h.cells env.cell ≡ none)
      (value_free : h.values env.value ≡ none) where
    -- When no call fails, the mutex of the list is free, there is room, and no client of the list has
    -- the number of the new one, `allocate_request_ressources` returns 1, without fault, and leaves
    -- the list with the new client at its end and a thread on its copy; and when that thread ends, its
    -- `list_remove` by `request_cmp` returns 1 and leaves the list of before.
    pub allocate_request_ressources-remove_client :
        IsList h p l es
        → suc (length es) < 2 ^ 64
        → Returns
            (λ a g.
              (a ≡ (pos 1, some env.value))
              × ((m : Handle) × IsList g p m (es ++ added env request ∷ []))
              × Returns Left (remove_client true true p env.value g))
            (allocate_request_ressources env true true p request h)
    unfolding allocate_request_ressources
    allocate_request_ressources-remove_client is room =
        Returns-bind (Added h p l es (added env request)) _ (list_add env p (some request) h) _
          (list_add-append env request h p l waits posts cell_ne value_ne cell_free value_free free
            es is room)
          λ r g a.
            let not_null : (env.value == null) ≡ false = ground arith in
            rw (a.result, not_null) (refl, (a.handle, a.list), departure r g a)
