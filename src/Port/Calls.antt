-- ===== src/Port/Calls.antt =====
-- The public methods of ClientBase in port/mbed/wic_client.cpp, which run in the threads of the
-- application.
--
-- A method hands a task to the worker thread and waits for `job.done`. What the thread makes of the
-- system until then is an argument, `worker`: the other tasks and the network have a part in it. The
-- locks let one method of a kind run at a time.
use wic.Base.{
  ℕ, zero, suc, List, Bool, true, false, Option, none, some, leb, ltb, if◌then◌else◌, length, drop,
  strlen, take,
}
use wic.Types.{Encoding, HandshakeFailure, Status}
use wic.Inst.{Sys}
use wic.Init.{wic_get_redirect_url}
use wic.Port.Os.{Mail}
use wic.Port.Inputs.{input_free, input_get}
use wic.Port.Client.{ClientState, NsapiError, Client, do_work, new_job, with_client}
use wic.Port.Thread.{Task, is_closed}

-- nsapi_size_or_error_t
pub data SizeOrError : Type 0 where
  size : ℕ → SizeOrError
  error : NsapiError → SizeOrError

-- What `recv` gives to its caller: its result, and where a message has been taken what it has
-- written through its references and its pointer.
pub record Reception : Type 0 where
  pub retval : SizeOrError
  pub message : Option (Encoding × Bool × List ℕ)

abbrev pub failed : NsapiError → Reception
failed e = record { retval = SizeOrError.error e; message = none }

unfoldable pub is_open : ClientState → Bool
is_open ClientState.opened = true
is_open _ = false

unfoldable pub is_upgrade : HandshakeFailure → Bool
is_upgrade HandshakeFailure.upgrade = true
is_upgrade _ = false

-- `switch(job.status)` of `send`; none where the send is tried again.
unfoldable pub send_result : Status → ℕ → Option SizeOrError
send_result Status.success n = some (SizeOrError.size n)
send_result Status.would_block n = none
send_result _ n = some (SizeOrError.error NsapiError.parameter)

module _ {F Q M P : Type 0} (worker : Task → Sys (Client F Q M P) → Sys (Client F Q M P)) where
  -- `job = {}; events.call(...); do_work(); while(!job.done){ wait(); }`
  unfoldable pub request : Task → Sys (Client F Q M P) → Sys (Client F Q M P)
  unfolding do_work
  request task s = worker task (with_client (λ c. do_work (record c { job = new_job })) s)

  -- The URL is copied and `do_open` called; none where it is too long, before a job is posted.
  unfoldable pub try_connect : List ℕ → Sys (Client F Q M P) → Option (Sys (Client F Q M P))
  unfolding request
  try_connect url s =
      if leb s.world.url_max (length url)
      then none
      else some (request Task.opens (with_client (λ c. record c { url = url }) s))

  -- The URL to go on with, the string that wic_get_redirect_url points to.
  unfoldable pub redirection : Sys (Client F Q M P) → Option (List ℕ)
  unfolding is_upgrade
  redirection s = elim (wic_get_redirect_url s.self) [
    | none ↦ none
    | some at ↦
        let url = drop at s.self.rx.s.mem in
        if is_upgrade s.world.job.handshake_failure_reason
        then some (take (strlen url) url)
        else none
  ]

  -- The loop of `connect` with `n` redirects left.
  unfoldable pub connect_from :
      ℕ → List ℕ → Sys (Client F Q M P) → NsapiError × Sys (Client F Q M P)
  unfolding try_connect redirection
  connect_from zero url s = elim (try_connect url s) [
    | none ↦ (NsapiError.parameter, with_client (λ c. record c { job = new_job }) s)
    | some s' ↦ (s'.world.job.retval, s')
  ]
  connect_from (suc n) url s = elim (try_connect url s) [
    | none ↦ (NsapiError.parameter, with_client (λ c. record c { job = new_job }) s)
    | some s' ↦ elim (redirection s') [
      | none ↦ (s'.world.job.retval, s')
      | some to ↦ connect_from n to s'
    ]
  ]

  -- `max_redirects` is 3.
  unfoldable pub connect : List ℕ → Sys (Client F Q M P) → NsapiError × Sys (Client F Q M P)
  unfolding connect_from
  connect url s = connect_from 3 url s

  unfoldable pub close : Sys (Client F Q M P) → Sys (Client F Q M P)
  unfolding request
  close s = request Task.closes s

  -- `send`, tried `fuel` times at most; none where each of them would block.
  unfoldable pub send :
      ℕ
      → Encoding
      → Bool
      → List ℕ
      → Sys (Client F Q M P)
      → Option SizeOrError × Sys (Client F Q M P)
  unfolding request send_result
  send zero encoding fin bytes s = (none, s)
  send (suc fuel) encoding fin bytes s =
      let s' = request (Task.sends encoding fin bytes) s in
      elim (send_result s'.world.job.status (length bytes)) [
        | some r ↦ (some r, s')
        | none ↦ send fuel encoding fin bytes s'
      ]

module _ {F Q M P : Type 0} (mail : Mail M) where
  -- A message that is larger than `max` is cut.
  unfoldable pub try_get : ℕ → Client F Q M P → Reception × Client F Q M P
  unfolding input_get input_free do_work
  try_get max c =
      let (block, q) = input_get mail c.input_queue in
      let c' = record c { input_queue = q } in
      elim block [
        | none ↦ (record { retval = SizeOrError.error NsapiError.would_block; message = none }, c')
        | some p ↦
            let b = q.blocks p in
            let n = if ltb max b.size then max else b.size in
            (
              record {
                retval = SizeOrError.size n;
                message = some (b.encoding, b.fin, take n b.mem);
              },
              do_work (record c' { input_queue = input_free mail p q }),
            )
      ]

  -- A round of the loop of `recv`; `timed_out` is what `readers.wait_until` would return, false where
  -- `recv` waits for ever. None where it goes around.
  unfoldable pub recv_round : ℕ → Bool → Client F Q M P → Option Reception × Client F Q M P
  unfolding try_get is_closed is_open
  recv_round max timed_out c =
      let (r, c') = try_get max c in
      elim r.message [
        | some m ↦ (some r, c')
        | none ↦
            if is_closed c.state
            then (some (failed NsapiError.no_connection), c')
            else (if timed_out
                then (
                  some (
                      failed (
                        if is_open c.state
                        then NsapiError.would_block
                        else NsapiError.no_connection)),
                  c',
                )
                else (none, c'))
      ]
