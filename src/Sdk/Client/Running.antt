-- ===== src/Sdk/Client/Running.antt =====
-- The process of the worker that `Veil` keeps.
use mathlib.Core.Path.{subst}
use veil.Prelude.{
  ℕ, ◌≡◌, refl, sym, ap, ◌∙◌, Bool, true, false, Option, none, some, inl, inr, Bool-cases, ◌&&◌,
  ◌==◌,
}
use mathlib.Core.Option.{some-injective}
use veil.Prelude.Int.{ℤ}
use veil.Prelude.Res.{ok, err, ok-injective, Result-cases}
use veil.Bytes.{Bytes, bytes_eq}
use veil.Program.Runtime.{Pubkey}
use veil.Sdk.Error.{Error, Res, prover, artifacts}
use veil.Sdk.Os.{
  Os, FilePath, Command, Frame, ended, oversized, frame, Timed, finished, elapsed, tested, attempt,
  settle, ask, lift, timeout,
}
use veil.Sdk.Os.Laws.{continue_split, by_deadline_in_time}
use veil.Sdk.Transaction.{Plan, Public, Transaction}
use veil.Sdk.Solana.{Pool, Proof, External, Withdrawal}
use veil.Sdk.Proving.Protocol.{
  Ready, Message, Channel, frame_parts, send, decoded, receive, max_response_bytes,
}
use veil.Sdk.Proving.Process.{Process, worker_command, take_pipes, test_file, start_process}
use veil.Sdk.Proving.Worker.{Messages, Worker, version, greet, start_worker}
use veil.Sdk.Client.{
  Platform, Veil, Slot, Called, take_worker, prove_plan, planned, proceed, finish, prepare,
  transfer, withdraw,
}
use veil.Sdk.Client.Proving.{IsReady, prove_plan-IsProved, prove_plan_error}

-- What is said of a child from its start until it is killed: it holds once the child is started, and writing to a
-- pipe and reading from one keep it.
pub record IsLife (os : Os) : Type 1 where
  pub IsAlive : os.World → os.Child → Type 0
  pub spawned :
      (command : Command) (w : os.World) {x : os.Child × Option os.In × Option os.Out}
      {w' : os.World}
      → os.spawn command w ≡ (some x, w')
      → IsAlive w' x.0
  pub writes_to :
      (pipe : os.In) (bytes : Bytes) (w : os.World) (c : os.Child)
      → IsAlive w c
      → IsAlive (os.write_all pipe bytes w).1 c
  pub flushes :
      (pipe : os.In) (w : os.World) (c : os.Child) → IsAlive w c → IsAlive (os.flush pipe w).1 c
  pub reads_from :
      (size limit : ℕ) (pipe : os.Out) (w : os.World) (c : os.Child)
      → IsAlive w c
      → IsAlive (os.next_frame size limit pipe w).1 c

module _ (os : Os) (L : IsLife os) where
  tested_world : (e : Error) (x : Bool × os.World) → (tested e x).1 ≡ x.1
  tested_world e (true, w) = refl
  tested_world e (false, w) = refl

  attempt_alive :
      (call : os.World → Bool × os.World) (e : Error) (w : os.World) (c : os.Child) {w' : os.World}
      → L.IsAlive (call w).1 c
      → attempt call e w ≡ (ok tt, w')
      → L.IsAlive w' c
  attempt_alive call e w c alive same =
      subst (λ u. L.IsAlive u c)
        (sym (tested_world e (call w)) ∙ ap (λ (x : Res (Unit {0}) × os.World). x.1) same) alive

  decoded_world : {M : Type 0} (m : Message M) (x : Frame × os.World) → (decoded os m x).1 ≡ x.1
  decoded_world m (ended, w) = refl
  decoded_world m (oversized, w) = refl
  decoded_world m (frame body, w) = refl

  receive_alive :
      {M : Type 0} (m : Message M) (channel : Channel os) (w : os.World) (c : os.Child)
      → L.IsAlive w c
      → L.IsAlive (receive os m channel w).1 c
  unfolding receive
  receive_alive m channel w c alive =
      subst (λ u. L.IsAlive u c)
        (sym (decoded_world m (os.next_frame 4 max_response_bytes channel.output w)))
        (L.reads_from 4 max_response_bytes channel.output w c alive)

  send_alive :
      {M : Type 0} (m : Message M) (channel : Channel os) (message : M) (w w' : os.World)
      (c : os.Child)
      → send os m channel message w ≡ (ok tt, w')
      → L.IsAlive w c
      → L.IsAlive w' c
  unfolding send
  send_alive m channel message w w' c e alive =
      let fails = prover "worker input failed" in
      let ((size, body), w0, e0, s0) =
        continue_split (lift (frame_parts os m message) w) _
          (ap (λ (x : Res (Unit {0}) × os.World). x.0) e) in
      let alive0 : L.IsAlive w0 c =
        subst (λ u. L.IsAlive u c) (ap (λ (x : Res (Bytes × Bytes) × os.World). x.1) e0) alive in
      let r0 = sym s0 ∙ e in
      let (_, w1, e1, s1) =
        continue_split (attempt (os.write_all channel.input size) fails w0) _
          (ap (λ (x : Res (Unit {0}) × os.World). x.0) r0) in
      let alive1 =
        attempt_alive (os.write_all channel.input size) fails w0 c
          (L.writes_to channel.input size w0 c alive0) e1 in
      let r1 = sym s1 ∙ r0 in
      let (_, w2, e2, s2) =
        continue_split (attempt (os.write_all channel.input body) fails w1) _
          (ap (λ (x : Res (Unit {0}) × os.World). x.0) r1) in
      let alive2 =
        attempt_alive (os.write_all channel.input body) fails w1 c
          (L.writes_to channel.input body w1 c alive1) e2 in
      let r2 = sym s2 ∙ r1 in
      attempt_alive (os.flush channel.input) fails w2 c (L.flushes channel.input w2 c alive2) r2

  settle_inv :
      {A : Type 0} (e : Error) (x : Option A × os.World) {a : A} {w : os.World}
      → settle e x ≡ (ok a, w)
      → x ≡ (some a, w)
  settle_inv e (none, w) same = absurd (cc)
  settle_inv e (some a, w) same = cc

  -- The child of a process that is started has just been spawned.
  take_pipes_alive :
      (x : os.Child × Option os.In × Option os.Out) (w : os.World) (c : os.Child) {p : Process os}
      {w' : os.World}
      → L.IsAlive w x.0
      → take_pipes os x w ≡ (ok p, w')
      → p.child ≡ some c
      → L.IsAlive w' c
  take_pipes_alive (child, none, output) w c alive e at = absurd (cc)
  take_pipes_alive (child, some input, none) w c alive e at = absurd (cc)
  take_pipes_alive (child, some input, some output) w c {p} {w'} alive e at =
      let made : Process os = record {
        child = some child;
        channel = record { input = input; output = output };
      } in
      let same : made ≡ p = ok-injective made p (ap (λ (x : Res (Process os) × os.World). x.0) e) in
      let who : child ≡ c = some-injective child c (ap (λ (q : Process os). q.child) same ∙ at) in
      subst (λ d. L.IsAlive w' d) who
        (subst (λ u. L.IsAlive u child) (ap (λ (x : Res (Process os) × os.World). x.1) e) alive)

  start_process_alive :
      (executable directory : FilePath) (w : os.World) (c : os.Child) {p : Process os}
      {w' : os.World}
      → start_process os executable directory w ≡ (ok p, w')
      → p.child ≡ some c
      → L.IsAlive w' c
  unfolding start_process
  start_process_alive executable directory w c e at =
      let result : Res (Process os) × os.World → Res (Process os) = λ x. x.0 in
      let (program, w1, _, s1) =
        continue_split
          (ask (os.canonicalize executable) (prover "worker executable is unavailable") w) _
          (ap result e) in
      let r1 = sym s1 ∙ e in
      let (_, w2, _, s2) = continue_split (test_file os program w1) _ (ap result r1) in
      let r2 = sym s2 ∙ r1 in
      let (directory', w3, _, s3) =
        continue_split
          (ask (os.canonicalize directory) (artifacts "artifact directory is unavailable") w2) _
          (ap result r2) in
      let r3 = sym s3 ∙ r2 in
      let spawn = os.spawn (worker_command os program directory') w3 in
      let (x, w4, e4, s4) =
        continue_split (settle (prover "worker could not start") spawn) _ (ap result r3) in
      take_pipes_alive x w4 c
        (L.spawned (worker_command os program directory') w3
          (settle_inv (prover "worker could not start") spawn e4))
        (sym s4 ∙ r3) at

  module _ (m : Messages) where
    greet_inv :
        (p : Process os) (artifact : Bytes) (t : Timed Ready × os.World) {worker : Worker os m}
        {w' : os.World}
        → greet os m p artifact t ≡ (ok worker, w')
        → (r : Res Ready) × (t.0 ≡ finished r) × (worker.process ≡ p) × (t.1 ≡ w')
    greet_inv p artifact (finished (ok ready), w) {worker} e =
        elim (Bool-cases ((ready.protocol == version) && bytes_eq ready.artifact artifact)) [
          | inl same ↦
              let started : Worker os m = record { process = p; next_request_id = 0 } in
              let found = rw same at e in
              (
                ok ready,
                refl,
                ap (λ (x : Worker os m). x.process)
                    (sym (
                      ok-injective started worker
                        (ap (λ (x : Res (Worker os m) × os.World). x.0) found))),
                ap (λ (x : Res (Worker os m) × os.World). x.1) found,
              )
          | inr other ↦ absurd (cc (rw other at e))
        ]
    greet_inv p artifact (finished (err x), w) e = absurd (cc)
    greet_inv p artifact (elapsed, w) e = absurd (cc)

    start_worker_alive :
        (executable directory : FilePath) (artifact : Bytes) (deadline : ℕ) (w : os.World)
        (c : os.Child) {worker : Worker os m} {w' : os.World}
        → start_worker os m executable directory artifact deadline w ≡ (ok worker, w')
        → worker.process.child ≡ some c
        → L.IsAlive w' c
    unfolding start_worker
    start_worker_alive executable directory artifact deadline w c e at =
        let (p, w1, e1, s1) =
          continue_split (start_process os executable directory w) _
            (ap (λ (x : Res (Worker os m) × os.World). x.0) e) in
        let late = os.expires deadline w1 in
        let (r, done, same, last) =
          greet_inv p artifact (timeout os deadline (receive os m.ready p.channel) w1)
            (sym s1 ∙ e) in
        let (_, ends) = by_deadline_in_time os late (receive os m.ready p.channel) w1 done in
        let alive1 =
          start_process_alive executable directory w c e1
            (ap (λ (q : Process os). q.child) (sym same) ∙ at) in
        subst (λ u. L.IsAlive u c) (sym (ap (λ (x : Timed Ready × os.World). x.1) ends) ∙ last)
          (receive_alive m.ready p.channel w1 c alive1)

module _ (f : Platform) (L : IsLife f.os) where
  -- The worker that is kept has a child, which is alive.
  unfoldable pub IsRunning : Slot f → f.os.World → Type 0
  IsRunning none w = Unit
  IsRunning (some worker) w = (c : f.os.Child) × (worker.process.child ≡ some c) × L.IsAlive w c

  take_worker_alive :
      (v : Veil f) (slot : Slot f) (w : f.os.World) (c : f.os.Child)
      {worker : Worker f.os f.messages} {w' : f.os.World}
      → IsRunning slot w
      → take_worker f v slot w ≡ (ok worker, w')
      → worker.process.child ≡ some c
      → L.IsAlive w' c
  unfolding IsRunning
  take_worker_alive v none w c h e at =
      start_worker_alive f.os L f.messages v.worker_executable v.artifact_directory
        v.artifacts.manifest.id v.timeout w c e at
  take_worker_alive v (some kept) w c {worker} {w'} (d, has, alive) e at =
      let same : kept ≡ worker =
        ok-injective kept worker (ap (λ (x : Res (Worker f.os f.messages) × f.os.World). x.0) e) in
      let who : d ≡ c =
        some-injective d c
          (sym has ∙ ap (λ (x : Worker f.os f.messages). x.process.child) same ∙ at) in
      subst (λ k. L.IsAlive w' k) who
        (subst (λ u. L.IsAlive u d) (ap (λ (x : Res (Worker f.os f.messages) × f.os.World). x.1) e)
          alive)

  -- One call of the prover.
  prove_plan-IsRunning :
      (v : Veil f) (slot : Slot f) (p : Plan) (public : Public) (w : f.os.World)
      → IsReady f slot
      → IsRunning slot w
      → IsReady f (prove_plan f v slot p public w).0.0
        × IsRunning (prove_plan f v slot p public w).0.0 (prove_plan f v slot p public w).1
  unfolding IsRunning IsReady
  prove_plan-IsRunning v slot p public w ready running =
      let t = prove_plan f v slot p public w in
      elim (Result-cases t.0.1) [
        | inl (proof, e) ↦
            let d = prove_plan-IsProved f v slot p public w ready e in
            let c = d.idle.child in
            let process = d.served.process in
            let alive0 =
              take_worker_alive v slot w c running d.taken
                (ap (λ (q : Process f.os). q.child) (sym process) ∙ d.idle.running) in
            let alive1 =
              send_alive f.os L f.messages.request d.before.process.channel _ d.start
                d.served.between c d.served.sent alive0 in
            let alive2 =
              receive_alive f.os L f.messages.response d.before.process.channel d.served.between c
                alive1 in
            let alive = subst (λ u. L.IsAlive u c) (ap (λ x. x.1) d.served.received) alive2 in
            rw d.kept (d.idle, (c, d.idle.running, alive))
        | inr (x, e) ↦ elim (prove_plan_error f v slot p public w e) [
          | inl empty ↦ rw empty (tt, tt)
          | inr (_, same, still) ↦ rw (same, still) (ready, running)
        ]
      ]

  IsKept : {A : Type 0} → Called f A → Type 0
  IsKept t = IsReady f t.0.0 × IsRunning t.0.0 t.1

  finish-IsKept :
      (pool : Pool) (external : External) (amount : ℤ) (payer : Pubkey) (t : Called f Proof)
      → IsKept t
      → IsKept (finish f pool external amount payer t)
  unfolding IsKept
  finish-IsKept pool external amount payer ((slot, err e), w) h = h
  finish-IsKept pool external amount payer ((slot, ok proof), w) h = h

  proceed-IsKept :
      (v : Veil f) (slot : Slot f) (pool : Pool) (amount : ℤ) (payer : Pubkey)
      (x : Res (Plan × External × Public)) (w : f.os.World)
      → IsReady f slot × IsRunning slot w
      → IsKept (proceed f v slot pool amount payer x w)
  unfolding IsKept
  proceed-IsKept v slot pool amount payer (err e) w h = h
  proceed-IsKept v slot pool amount payer (ok (p, external, public)) w h =
      finish-IsKept pool external amount payer (prove_plan f v slot p public w)
        (prove_plan-IsRunning v slot p public w h.0 h.1)

  -- The slots and worlds that the calls of a client lead to, from that of a new `Veil`. Between two calls the
  -- world may do anything that leaves the children alive.
  pub data Calls (v : Veil f) : Slot f → f.os.World → Type 0 where
    opened : (w : f.os.World) → Calls v none w
    between :
        (slot : Slot f) (w w' : f.os.World)
        → ((c : f.os.Child) → L.IsAlive w c → L.IsAlive w' c)
        → Calls v slot w
        → Calls v slot w'
    proved :
        (slot : Slot f) (p : Plan) (public : Public) (w : f.os.World)
        → Calls v slot w
        → Calls v (prove_plan f v slot p public w).0.0 (prove_plan f v slot p public w).1
    transferred :
        (fuel : ℕ) (slot : Slot f) (pool : Pool) (t : Transaction) (payer : Pubkey)
        (entropy : f.rng.State) (w : f.os.World)
        → Calls v slot w
        → Calls v
            (transfer f fuel v slot pool t payer entropy w).0.0
            (transfer f fuel v slot pool t payer entropy w).1
    withdrawn :
        (fuel : ℕ) (slot : Slot f) (pool : Pool) (t : Transaction) (wd : Withdrawal)
        (payer : Pubkey) (entropy : f.rng.State) (w : f.os.World)
        → Calls v slot w
        → Calls v
            (withdraw f fuel v slot pool t wd payer entropy w).0.0
            (withdraw f fuel v slot pool t wd payer entropy w).1

  IsRunning-between :
      (slot : Slot f) (w w' : f.os.World)
      → ((c : f.os.Child) → L.IsAlive w c → L.IsAlive w' c)
      → IsRunning slot w
      → IsRunning slot w'
  unfolding IsRunning
  IsRunning-between none w w' keeps h = tt
  IsRunning-between (some worker) w w' keeps (c, has, alive) = (c, has, keeps c alive)

  -- After any calls of `prove`, `transfer` and `withdraw` on a new client, successful or not, the worker that is
  -- kept, if there is one, has a counter within a `u64` and a child that is alive: what is said of a child from
  -- its start until it is killed holds of it.
  pub Calls-IsRunning :
      (v : Veil f) {slot : Slot f} {w : f.os.World}
      → Calls v slot w
      → IsReady f slot × IsRunning slot w
  unfolding IsReady IsRunning IsKept transfer withdraw prepare
  Calls-IsRunning v (opened w) = (tt, tt)
  Calls-IsRunning v (between slot w w' keeps past) =
      let (ready, running) = Calls-IsRunning v past in
      (ready, IsRunning-between slot w w' keeps running)
  Calls-IsRunning v (proved slot p public w past) =
      let (ready, running) = Calls-IsRunning v past in
      prove_plan-IsRunning v slot p public w ready running
  Calls-IsRunning v (transferred fuel slot pool t payer entropy w past) =
      proceed-IsKept v slot pool _ payer (planned f fuel pool t pool.address _ entropy) w
        (Calls-IsRunning v past)
  Calls-IsRunning v (withdrawn fuel slot pool t wd payer entropy w past) =
      elim (Bool-cases (bytes_eq wd.recipient pool.address)) [
        | inl self ↦ rw self (Calls-IsRunning v past)
        | inr other ↦ rw other (
            proceed-IsKept v slot pool _ payer (planned f fuel pool t wd.recipient _ entropy) w
              (Calls-IsRunning v past))
      ]
