-- ===== src/Server/Shutdown.antt =====
-- How the server stops.
use local_server_c.Base.{
  ℕ, ◌≡◌, ◌≢◌, refl, sym, ap, ◌∙◌, Option, Bool, true, false, not, ◌&&◌, List, [], ◌∷◌, ◌++◌,
  if◌then◌else◌, All, map, append-nil, append_assoc, Bool-cases, inl, inr, ℤ, pos, negsuc, ltb_ℤ,
  arith,
}
use mathlib.Core.Path.{subst}
use local_server_c.Queue.{ShmRequest, returned}
use local_server_c.Queue.Life.{World, free_server_queue}
use local_server_c.LinkedList.Memory.{Returns-ok, Handle, Returns}
use local_server_c.LinkedList.{list_dispose}
use local_server_c.LinkedList.Chain.{Entry, IsList}
use local_server_c.LinkedList.Walk.{fold, list_apply-fold, Disposed, list_dispose-Freed}
use local_server_c.Yml.HashMap.{Elem}
use local_server_c.Yml.Parser.{Parser, Ran, free_parser}
use local_server_c.Server.{free_online_clients}
use local_server_c.Server.Life.{
  Signal, sigint, sigquit, sigterm, sigpipe, Globals, FreeAnswers, exits_success, exits_failure,
  free_queue, free_config, free_clients, free_all, sig_free,
}

-- Every client can be signalled.
abbrev pub AllReached : (ℕ → Bool) → List (Entry ShmRequest) → Type 0
AllReached kill es = All (λ e. kill e.item.pid ≡ true) es

abbrev pub reached : (ℕ → Bool) → List (Entry ShmRequest) → Bool
reached kill [] = true
reached kill (e ∷ es) = kill e.item.pid && reached kill es

abbrev pub pids : List (Entry ShmRequest) → List ℕ
pids es = map (λ e. e.item.pid) es

fold-negative :
    (kill : ℕ → Bool) (es : List (Entry ShmRequest)) (sent : List ℕ)
    → fold (free_online_clients kill) (negsuc 0) sent es ≡ (negsuc 0, sent ++ pids es)
unfolding fold free_online_clients
fold-negative kill [] sent = ap (λ l. (negsuc 0, l)) (sym (append-nil sent))
fold-negative kill (e ∷ es) sent =
    let rest = fold-negative kill es (sent ++ e.item.pid ∷ []) in
    let same = append_assoc sent (e.item.pid ∷ []) (pids es) in
    elim (Bool-cases (kill e.item.pid)) [
      | inl hit ↦ simp (hit, rest, same)
      | inr miss ↦ simp (miss, rest, same)
    ]

below : (n : ℕ) → ltb_ℤ (pos n) (pos 0) ≡ false
below n = ground arith

fold-called :
    (kill : ℕ → Bool) (es : List (Entry ShmRequest)) (n : ℕ) (sent : List ℕ)
    → (r : ℤ) × (fold (free_online_clients kill) (pos n) sent es ≡ (r, sent ++ pids es))
      × (ltb_ℤ r (pos 0) ≡ not (reached kill es))
unfolding fold free_online_clients
fold-called kill [] n sent = (pos n, ap (λ l. (pos n, l)) (sym (append-nil sent)), ground arith)
fold-called kill (e ∷ es) n sent =
    let same = append_assoc sent (e.item.pid ∷ []) (pids es) in
    elim (Bool-cases (kill e.item.pid)) [
      | inl hit ↦
          let (r, run, sign) = fold-called kill es 1 (sent ++ e.item.pid ∷ []) in
          (r, simp (hit, below n, run, same), simp (hit, sign))
      | inr miss ↦
          (negsuc 0, simp (miss, fold-negative kill es (sent ++ e.item.pid ∷ []), same), simp miss)
    ]

queue_end :
    (a : FreeAnswers) (g : Globals) (w : World) (good : Bool)
    → free_server_queue a.queue g.server_q g.world ≡ returned (pos 1) w
    → free_queue a g good ≡ (if good then exits_success w else exits_failure w)
unfolding free_queue
queue_end a g w good queue = simp (queue, free_queue)

config_end :
    (a : FreeAnswers) (g : Globals) (w : World) (freed : Option Parser × List Elem) (good : Bool)
    → free_parser a.parser_wait_fails g.config ≡ Ran.returned (pos 1) freed
    → free_server_queue a.queue g.server_q g.world ≡ returned (pos 1) w
    → free_config a g good ≡ (if good then exits_success w else exits_failure w)
unfolding free_config
config_end a g w freed true parser queue = simp (parser, free_config) (queue_end a g w true queue)
config_end a g w freed false parser queue = simp (parser, free_config) (queue_end a g w false queue)

not-not : (b : Bool) → not (not b) ≡ b
not-not true = refl
not-not false = refl

and_true : (b : Bool) → (b && true) ≡ b
and_true true = refl
and_true false = refl

finishes :
    (a : FreeAnswers) (g : Globals) (l : Handle) (es : List (Entry ShmRequest))
    → IsList g.heap g.client_list l es
    → l.mutex ≢ 0
    → a.list_waited ≡ true
    → (freed : Option Parser × List Elem)
    → free_parser a.parser_wait_fails g.config ≡ Ran.returned (pos 1) freed
    → (w : World) → free_server_queue a.queue g.server_q g.world ≡ returned (pos 1) w
    → (good : Bool) → free_clients a g good ≡ (if good then exits_success w else exits_failure w)
unfolding free_clients
finishes a g l es is free waited freed parser w queue good =
    let disposed =
      subst (λ b. Returns (Disposed g.heap g.client_list es) (list_dispose b g.client_list g.heap))
        (sym waited) (list_dispose-Freed g.heap g.client_list l es is free) in
    let (r, h, e, d) =
      Returns-ok (Disposed g.heap g.client_list es)
        (list_dispose a.list_waited g.client_list g.heap) disposed in
    simp (e, d.result, below 1, and_true, free_clients) (config_end a g w freed good parser queue)

all_end :
    (a : FreeAnswers) (g : Globals) (l : Handle) (es : List (Entry ShmRequest))
    → IsList g.heap g.client_list l es
    → l.mutex ≢ 0
    → a.list_waited ≡ true
    → (freed : Option Parser × List Elem)
    → free_parser a.parser_wait_fails g.config ≡ Ran.returned (pos 1) freed
    → (w : World) → free_server_queue a.queue g.server_q g.world ≡ returned (pos 1) w
    → free_all a g ≡ (pids es, if reached a.kill es then exits_success w else exits_failure w)
unfolding free_all
all_end a g l es is free waited freed parser w queue =
    let (r, run, sign) = fold-called a.kill es 0 [] in
    let same : not (ltb_ℤ r (pos 0)) ≡ reached a.kill es =
      ap not sign ∙ not-not (reached a.kill es) in
    simp
      (list_apply-fold g.heap g.client_list l (free_online_clients a.kill) es [] is, run, free_all)
      (ap (λ x. (pids es, x))
        (finishes a g l es is free waited freed parser w queue (not (ltb_ℤ r (pos 0)))
          ∙ ap (λ b. if b then exits_success w else exits_failure w) same))

-- When the waits do not fail or block and the parser and the queue can be freed, a signal other than
-- SIGPIPE ends the server: `kill` is called for the process of every client of the list, in the order of
-- the list and whether or not an earlier call failed, and the exit code is that of success exactly when
-- none of the calls failed.
pub sig_free-status :
    (a : FreeAnswers) (s : Signal) (g : Globals) (l : Handle) (es : List (Entry ShmRequest))
    → s ≢ sigpipe
    → IsList g.heap g.client_list l es
    → l.mutex ≢ 0
    → a.list_waited ≡ true
    → (freed : Option Parser × List Elem)
    → free_parser a.parser_wait_fails g.config ≡ Ran.returned (pos 1) freed
    → (w : World) → free_server_queue a.queue g.server_q g.world ≡ returned (pos 1) w
    → sig_free a s g ≡ (pids es, if reached a.kill es then exits_success w else exits_failure w)
unfolding sig_free
sig_free-status a sigpipe g l es other is free waited freed parser w queue = absurd (other refl)
sig_free-status a sigint g l es other is free waited freed parser w queue =
    all_end a g l es is free waited freed parser w queue
sig_free-status a sigquit g l es other is free waited freed parser w queue =
    all_end a g l es is free waited freed parser w queue
sig_free-status a sigterm g l es other is free waited freed parser w queue =
    all_end a g l es is free waited freed parser w queue
sig_free-status a (Signal.other n) g l es other is free waited freed parser w queue =
    all_end a g l es is free waited freed parser w queue
