-- ===== src/Tests/Tasks.antt =====
-- Tests of rylr998-tokio/src/lib.rs: the background task.
use rylr998_rs.Base.{◌≢◌, ◌++◌, ◌≡◌, refl, true, none, inl, List, [], ◌∷◌, arith, codes, ok}
use rylr998_rs.Types.{Response, Event, RfParams}
use rylr998_rs.Driver.{new}
use rylr998_rs.Driver.Invariant.{new-IsValid}
use rylr998_rs.Driver.Batch.{batch_text, Holds}
use rylr998_rs.Owned.{OwnedCommand, OwnedResponse, as_command, from_response}
use rylr998_rs.Radio.{Radio, from_port}
use rylr998_rs.Tokio.{Processed, process_job, timed_out, bytes_read, end_of_stream, JobRound}
use rylr998_rs.Tokio.Tasks.{Selected, job, read, running, idle_read, run_task}
use rylr998_rs.Tokio.Running.{Runs, run_task-Runs}
use rylr998_rs.Tokio.Exchange.{job_reads}
use rylr998_rs.Tokio.Events.{Sends, idle_read-batch}
use rylr998_rs.Tokio.Behind.{answered_job, run_task-behind_answer}
use rylr998_rs.Tokio.Methods.{
  Request, unexpected, ping, set_address, set_network_id, set_band, set_cpin, set_parameters,
  factory_reset, send, address, network_id, band, cpin, parameters, crfop, uid, version,
}
use rylr998_rs.Tokio.Answers.{methods-OnlyAnswers}
use rylr998_rs.Tokio.Blocked.{process_job-blocked}
use rylr998_rs.Driver.{AwaitKind, QueryKey, ack, query, kind_of}
use rylr998_rs.Driver.Exchange.{Answers}
use rylr998_rs.Encode.Wire.{crlf}
use rylr998_rs.Decode.Text.{event_text}
use rylr998_rs.Tokio.Channels.{request, served, request-served}
use rylr998_rs.Tests.Vectors.{emptied, undrained, list_vec}
use rylr998_rs.Tests.Calls.{new-IsQuiet, new-IsListening, hello, hello-IsHeard, ready-IsHeard}

abbrev last_round : JobRound
last_round = record { write_error = none; read = timed_out }

abbrev selected : List Selected
selected =
    job OwnedCommand.ping (last_round ∷ [])
    ∷ read (bytes_read (codes "+OK\r\n"))
    ∷ read end_of_stream
    ∷ []

run_task-Runs_example : Runs (run_task selected from_port)
unfolding as_command
run_task-Runs_example =
    run_task-Runs selected from_port (λ sent e. cc) ((tt, inl tt), (tt, (tt, tt))) new-IsValid

idle_read-batch_example :
    Sends
      (hello ∷ Event.ready ∷ [])
      (idle_read (bytes_read (batch_text (hello ∷ Event.ready ∷ []))) from_port)
      from_port
unfolding rylr998_rs.Decimal.decimal rylr998_rs.Decimal.decimal_int
idle_read-batch_example =
    idle_read-batch [] (hello ∷ Event.ready ∷ []) from_port new-IsListening
      (hello-IsHeard, (ready-IsHeard, tt)) (omega arith) (λ sent less. refl)

run_task-behind_answer_example :
    (y : Radio) × (run_task
        (answered_job OwnedCommand.ping Response.ok (hello ∷ []) last_round [] ∷ [])
        from_port
      ≡ running y)
    × (y.events ≡ [])
    × Holds (hello ∷ []) [] y.driver
    × Sends
        (hello ∷ Event.ready ∷ [])
        (run_task
          (answered_job OwnedCommand.ping Response.ok (hello ∷ []) last_round []
            ∷ read (bytes_read (batch_text (Event.ready ∷ [])))
            ∷ [])
          from_port)
        y
unfolding as_command rylr998_rs.Driver.kind_of rylr998_rs.Decimal.decimal
    rylr998_rs.Decimal.decimal_int
run_task-behind_answer_example =
    run_task-behind_answer OwnedCommand.ping Response.ok (hello ∷ []) (Event.ready ∷ []) last_round
      [] from_port new-IsQuiet tt tt refl tt tt (hello-IsHeard, (ready-IsHeard, tt)) (omega arith)
      (omega arith) (λ sent less. refl)

request-served_example :
    request
      (λ job. true)
      (served 400 (job_reads (codes "+ADDRESS=5\r\n+READY\r\n") ∷ last_round ∷ []) from_port)
      OwnedCommand.get_address
      1000
    ≡ ok (OwnedResponse.address 5)
unfolding as_command from_response rylr998_rs.Driver.kind_of rylr998_rs.Decimal.decimal
request-served_example =
    request-served OwnedCommand.get_address (Response.address 5) (codes "+READY\r\n") last_round []
      1000 400 from_port new-IsQuiet tt tt refl (omega arith) tt (omega arith) (omega arith)

-- With no room in the channel the job waits for good.
full_channel :
    (y : Radio) × (process_job ⦃c = undrained 0⦄ OwnedCommand.get_address
        (job_reads (event_text hello ++ crlf) ∷ last_round ∷ [])
        from_port
      ≡ Processed.blocked y)
    × (y.events ≡ [])
unfolding as_command rylr998_rs.Driver.is_factory_reset rylr998_rs.Decimal.decimal
    rylr998_rs.Decimal.decimal_int
full_channel =
    process_job-blocked ⦃c = undrained 0⦄ OwnedCommand.get_address hello last_round [] from_port
      new-IsQuiet tt tt refl hello-IsHeard (omega arith) refl

abbrev fast : RfParams
fast = record { sf = 9; bw = 7; cr = 1; preamble = 12 }

-- A radio's answer to a command of each kind.
abbrev answer_to : AwaitKind → Response
answer_to ack = Response.ok
answer_to (query QueryKey.address) = Response.address 5
answer_to (query QueryKey.network_id) = Response.network_id 18
answer_to (query QueryKey.band) = Response.band 915000000
answer_to (query QueryKey.parameters) = Response.parameters fast
answer_to (query QueryKey.crfop) = Response.crfop 22
answer_to (query QueryKey.uid) = Response.uid (codes "0000")
answer_to (query QueryKey.version) = Response.version (codes "RYLR998")
answer_to (query QueryKey.cpin) = Response.cpin (codes "EEDCAA90")

answer_to-Answers : (k : AwaitKind) → Answers k (answer_to k)
answer_to-Answers ack = refl
answer_to-Answers (query QueryKey.address) = refl
answer_to-Answers (query QueryKey.network_id) = refl
answer_to-Answers (query QueryKey.band) = refl
answer_to-Answers (query QueryKey.parameters) = refl
answer_to-Answers (query QueryKey.crfop) = refl
answer_to-Answers (query QueryKey.uid) = refl
answer_to-Answers (query QueryKey.version) = refl
answer_to-Answers (query QueryKey.cpin) = refl

abbrev answering : Request
answering cmd timeout = ok (from_response (answer_to (kind_of (as_command cmd))))

methods-OnlyAnswers_example :
    (ping answering ≢ unexpected)
    × (set_address answering 5 ≢ unexpected)
    × (set_network_id answering 5 ≢ unexpected)
    × (set_band answering 915000000 ≢ unexpected)
    × (set_cpin answering (codes "EEDCAA90") ≢ unexpected)
    × (set_parameters answering fast ≢ unexpected)
    × (factory_reset answering ≢ unexpected)
    × (send answering 2 (codes "hello") ≢ unexpected)
    × (address answering ≢ unexpected)
    × (network_id answering ≢ unexpected)
    × (band answering ≢ unexpected)
    × (cpin answering ≢ unexpected)
    × (parameters answering ≢ unexpected)
    × (crfop answering ≢ unexpected)
    × (uid answering ≢ unexpected)
    × (version answering ≢ unexpected)
methods-OnlyAnswers_example =
    methods-OnlyAnswers answering 5 915000000 2 (codes "EEDCAA90") (codes "hello") fast
      (λ cmd timeout.
        (answer_to (kind_of (as_command cmd)), refl, answer_to-Answers (kind_of (as_command cmd))))
