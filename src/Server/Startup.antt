-- ===== src/Server/Startup.antt =====
-- What `Server::start` leaves, when it throws and when its loop returns.
use http_storm.Common.{
  either_way, if◌then◌else◌, codes, ◌%◌, ◌^◌, ℕ, true, false, Bytes, List, [], Option, none, some,
  Option-cases, inl, inr, ◌⊎◌, ◌≡◌, refl, sym, ap, subst, ◌∙◌,
}
use http_storm.Config.{ServerConfig}
use http_storm.Tls.{SslCtx}
use http_storm.Server.Table.{ConnectionOps}
use http_storm.Server.Lifecycle.{
  System, Server, Outcome, failure, constructed, listening, watching, setup_server_socket,
  setup_epoll, destruct,
}
use http_storm.Server.EventLoop.{
  Round, Loop, left, waits, broken_off, started, loop_server, Started, threw, looped, event_loop,
  start,
}
use http_storm.Server.Descriptors.{
  IsLive, IsReleased, Phase, stop-idle, stop-IsReleased, event_loop-Phase,
}

looped-injective : {C : Type 0} (l l' : Loop C) → looped l ≡ looped l' → l ≡ l'
looped-injective l l' e = cc

threw-injective : {C : Type 0} (s s' : Server C) (m m' : Bytes) → threw s m ≡ threw s' m' → s ≡ s'
threw-injective s s' m m' e = cc

-- What `start` ends with tells what its loop has come to.
started-looped :
    {C : Type 0} (l l' : Loop C) → started l ≡ looped l' → loop_server l ≡ loop_server l'
started-looped (left s) l' e = ap loop_server (looped-injective _ _ e)
started-looped (waits s last) l' e = ap loop_server (looped-injective _ _ e)
started-looped (broken_off s message) l' e = cc

started-threw :
    {C : Type 0} (l : Loop C) (s : Server C) (message : Bytes)
    → started l ≡ threw s message
    → loop_server l ≡ s
started-threw (left s') s message e = cc
started-threw (waits s' last) s message e = cc
started-threw (broken_off s' message') s message e = threw-injective _ _ _ _ e

module _ {C : Type 0} (system : System) where
  listening-same : (s : Server C) → (listening system s).0 ≡ s
  listening-same s =
      either_way (λ (o : Outcome C). o.0 ≡ s) (system.bind s.config.host s.config.port)
        (if system.listen (s.config.backlog % 2 ^ 32)
          then (s, none)
          else failure system (codes "listen") s)
        (failure system (codes "bind") s)
        (either_way (λ (o : Outcome C). o.0 ≡ s) (system.listen (s.config.backlog % 2 ^ 32))
          (s, none) (failure system (codes "listen") s) refl refl)
        refl

  watching-same : (s : Server C) → (watching system s).0 ≡ s
  watching-same s =
      either_way (λ (o : Outcome C). o.0 ≡ s)
        (elim s.server_fd [ some fd ↦ system.epoll_add fd | none ↦ false ]) (s, none)
        (failure system (codes "epoll_ctl") s) refl refl

  -- the member is what socket() returned, whatever follows
  setup_server_socket-fd :
      (s : Server C) → (setup_server_socket system s).0 ≡ record s { server_fd = system.socket }
  unfolding setup_server_socket
  setup_server_socket-fd s = elim (Option-cases system.socket) [
    | inl e ↦ rw (e, setup_server_socket) refl
    | inr (fd, e) ↦ rw (e, setup_server_socket) (listening-same _)
  ]

  setup_epoll-fd :
      (s : Server C) → (setup_epoll system s).0 ≡ record s { epoll_fd = system.epoll_create1 }
  unfolding setup_epoll
  setup_epoll-fd s = elim (Option-cases system.epoll_create1) [
    | inl e ↦ rw (e, setup_epoll) refl
    | inr (fd, e) ↦ rw (e, setup_epoll) (watching-same _)
  ]

  setup_server_socket-opened :
      (s : Server C)
      → (setup_server_socket system s).1 ≡ none
      → (fd : ℕ) × (system.socket ≡ some fd)
  unfolding setup_server_socket
  setup_server_socket-opened s h = elim (Option-cases system.socket) [
    | inl e ↦ absurd (let k = (rw (e, setup_server_socket) at h) in cc)
    | inr found ↦ found
  ]

  setup_epoll-opened :
      (s : Server C) → (setup_epoll system s).1 ≡ none → (fd : ℕ) × (system.epoll_create1 ≡ some fd)
  unfolding setup_epoll
  setup_epoll-opened s h = elim (Option-cases system.epoll_create1) [
    | inl e ↦ absurd (let k = (rw (e, setup_epoll) at h) in cc)
    | inr found ↦ found
  ]

-- One of the two set-ups of `start` throws.
abbrev pub SetUpThrows : {C : Type 0} → System → Server C → Type 0
SetUpThrows system s =
    ((message : Bytes) × ((setup_server_socket system s).1 ≡ some message))
    ⊎ (((setup_server_socket system s).1 ≡ none)
        × ((message : Bytes) × ((setup_epoll system (setup_server_socket system s).0).1
              ≡ some message)))

module _ {C : Type 0} (ops : ConnectionOps C) (system : System) (rounds : List (Round C)) where
  -- What `start` came to: an exception on the way, or the loop from a running server.
  data Began (s : Server C) (begun : Started C) : Type 0 where
    refused :
        (s' : Server C) (message : Bytes)
        → s'.server_fd ≡ system.socket
        → s'.running ≡ s.running
        → s'.closed_fds ≡ s.closed_fds
        → begun ≡ threw s' message
        → SetUpThrows system s
        → Began s begun
    began :
        (s' : Server C) (server_fd epoll_fd : ℕ)
        → system.socket ≡ some server_fd
        → system.epoll_create1 ≡ some epoll_fd
        → IsLive ops server_fd epoll_fd s'
        → begun ≡ started (event_loop ops rounds system.started_at s')
        → Began s begun

  start-Began : (s : Server C) → s.closed_fds ≡ [] → Began s (start ops system rounds s)
  unfolding start
  start-Began s h =
      let socket = setup_server_socket-fd system s in
      let s1 = (setup_server_socket system s).0 in
      let epoll = setup_epoll-fd system s1 in
      elim (Option-cases (setup_server_socket system s).1) [
        | inr (message, e) ↦
            refused s1 message (ap (λ (t : Server C). t.server_fd) socket)
              (ap (λ (t : Server C). t.running) socket) (ap (λ (t : Server C). t.closed_fds) socket)
              (rw (start, e) refl) (inl (message, e))
        | inl e ↦ elim (Option-cases (setup_epoll system s1).1) [
          | inr (message, f) ↦
              refused (setup_epoll system s1).0 message
                (ap (λ (t : Server C). t.server_fd) epoll
                  ∙ ap (λ (t : Server C). t.server_fd) socket)
                (ap (λ (t : Server C). t.running) epoll ∙ ap (λ (t : Server C). t.running) socket)
                (ap (λ (t : Server C). t.closed_fds) epoll
                  ∙ ap (λ (t : Server C). t.closed_fds) socket)
                (rw (start, e, f) refl) (inr (e, (message, f)))
          | inl f ↦
              let (server_fd, made) = setup_server_socket-opened system s e in
              let (epoll_fd, watched) = setup_epoll-opened system s1 f in
              began (record (setup_epoll system s1).0 { running = true }) server_fd epoll_fd made
                watched
                (record {
                  running = refl;
                  holds_server =
                      ap (λ (t : Server C). t.server_fd) epoll
                      ∙ ap (λ (t : Server C). t.server_fd) socket
                      ∙ made;
                  holds_epoll = ap (λ (t : Server C). t.epoll_fd) epoll ∙ watched;
                  closed =
                      ap (λ (t : Server C). t.closed_fds) epoll
                      ∙ ap (λ (t : Server C). t.closed_fds) socket
                      ∙ h;
                })
                (rw (start, e, f) refl)
        ]
      ]

module _ {C : Type 0} (ops : ConnectionOps C) (system : System) (rounds : List (Round C))
    (concurrency : ℕ) (config : ServerConfig) (tls_context : Option SslCtx) where
  abbrev new_server : Server C
  new_server = constructed concurrency config tls_context

  -- Whatever epoll reports and whenever the handler of the signals runs, a new server whose `start` does not
  -- throw has, once its destructor has run, closed the epoll descriptor and the listening socket, in this
  -- order, once each, and nothing else; it holds neither, it does not run, its pool is joined, and its table and
  -- the queue are empty.
  pub destruct-IsReleased :
      (loop : Loop C)
      → start ops system rounds new_server ≡ looped loop
      → (server_fd epoll_fd : ℕ) × (system.socket ≡ some server_fd)
        × (system.epoll_create1 ≡ some epoll_fd)
        × IsReleased ops server_fd epoll_fd (destruct ops (loop_server loop))
  destruct-IsReleased loop e = elim (start-Began ops system rounds new_server refl) [
    | refused s' message a b c f throws ↦ absurd (let k = sym f ∙ e in cc)
    | began s' server_fd epoll_fd a b live f ↦ (
      server_fd,
      epoll_fd,
      a,
      b,
      let same = started-looped _ _ (sym f ∙ e) in
          stop-IsReleased ops server_fd epoll_fd (loop_server loop) (
            subst (λ s. Phase ops server_fd epoll_fd s) same
              (event_loop-Phase ops server_fd epoll_fd rounds system.started_at s' (inl live))),
    )
  ]

  -- What a server is whose set-up has thrown: it is not marked as running, so that neither stop nor the
  -- destructor closes what socket() has returned.
  abbrev pub Leaks : Server C → Type 0
  Leaks s =
      SetUpThrows system new_server
      × (s.server_fd ≡ system.socket)
      × ((destruct ops s).server_fd ≡ system.socket)
      × ((destruct ops s).closed_fds ≡ [])

  -- If `start` of a new server throws, either one of its two set-ups has thrown, and the descriptor that socket()
  -- has returned stays in server_fd_ and neither stop nor the destructor closes it; or an exception has
  -- left the loop, and the destructor closes the epoll descriptor and the listening socket, once each, joins
  -- the pool and empties the table.
  pub destruct_thrown :
      (s : Server C) (message : Bytes)
      → start ops system rounds new_server ≡ threw s message
      → Leaks s
        ⊎ ((server_fd epoll_fd : ℕ) × (system.socket ≡ some server_fd)
            × (system.epoll_create1 ≡ some epoll_fd)
            × IsReleased ops server_fd epoll_fd (destruct ops s))
  destruct_thrown s message e = elim (start-Began ops system rounds new_server refl) [
    | began s' server_fd epoll_fd a b live f ↦
        let same = started-threw _ s message (sym f ∙ e) in
        inr (
          server_fd,
          epoll_fd,
          a,
          b,
          stop-IsReleased ops server_fd epoll_fd s (
              subst (λ t. Phase ops server_fd epoll_fd t) same
                (event_loop-Phase ops server_fd epoll_fd rounds system.started_at s' (inl live))),
        )
    | refused s' m a b c f throws ↦
        let same : s' ≡ s = threw-injective _ _ _ _ (sym f ∙ e) in
        let fd : s.server_fd ≡ system.socket = ap (λ (t : Server C). t.server_fd) (sym same) ∙ a in
        let idle = stop-idle ops s (ap (λ (t : Server C). t.running) (sym same) ∙ b) in
        inl (
          throws,
          fd,
          ap (λ (t : Server C). t.server_fd) idle ∙ fd,
          ap (λ (t : Server C). t.closed_fds) idle
              ∙ ap (λ (t : Server C). t.closed_fds) (sym same)
              ∙ c,
        )
  ]
