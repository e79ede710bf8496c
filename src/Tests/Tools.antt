-- ===== src/Tests/Tools.antt =====
-- Tests of rylr998-tool/src: the commands.
use rylr998_rs.Base.{ℕ, ◌≡◌, ◌↔◌, refl, true, false, none, some, List, [], ◌∷◌, arith, codes, ok}
use rylr998_rs.Types.{Response}
use rylr998_rs.Driver.Exchange.{IsQuiet}
use rylr998_rs.Driver.Batch.{IsListening}
use rylr998_rs.Radio.{from_port}
use rylr998_rs.Radio.Silence.{silent}
use rylr998_rs.Tool.Shell.{Line, Shell}
use rylr998_rs.Tool.Commands.{provision, listen_loop, listen}
use rylr998_rs.Tool.Provision.{Gives, Provisioned, provision_iff}
use rylr998_rs.Tool.Exchange.{Reply, answering_all, Ready}
use rylr998_rs.Tool.Dialogue.{spoken, answers}
use rylr998_rs.Tool.Settings.{cpin_setting}
use rylr998_rs.Tool.Provisioning.{IsProvision, dialogue, provision-stores}
use rylr998_rs.Tool.Listening.{
  Arrival, IsTimely, arrival_call, arrival_line, listen-arrivals, NotFailed, listen-NotFailed,
}
use rylr998_rs.Tests.Vectors.{list_vec}
use rylr998_rs.Tests.Calls.{new-IsQuiet, new-IsListening, hello, hello-IsHeard}

-- Every answer comes after 20 ms.
abbrev replies : ℕ → Reply
replies i = record { start = 0; now = 20; round = silent 70; rounds = [] }

abbrev settings : List Response
settings =
    Response.ok
    ∷ Response.address 5
    ∷ Response.ok
    ∷ Response.network_id 18
    ∷ Response.ok
    ∷ Response.cpin (codes "EEDCAA90")
    ∷ []

abbrev prepared : Shell
prepared = record { radio = from_port; calls = answering_all settings replies; printed = [] }

prepared-Ready : Ready (answers (dialogue 5 18 (some (codes "EEDCAA90")) none none) []) prepared
unfolding rylr998_rs.Tool.Settings.address_setting rylr998_rs.Tool.Settings.network_id_setting
    cpin_setting
prepared-Ready = record {
  quiet = new-IsQuiet;
  replies = replies;
  prompt = λ i. omega arith;
  calls_are = refl;
}

arguments-fit : IsProvision 5 18 (some (codes "EEDCAA90")) none none
arguments-fit = record {
  address_fits = omega arith;
  net_fits = omega arith;
  cpin_fits = record { eight = refl; hex = refl; nonzero = refl };
  band_fits = tt;
  params_fit = tt;
}

provision-stores_example :
    (t : Shell) × Gives (provision 5 18 (some (codes "EEDCAA90")) none none) prepared tt t
    × IsQuiet t.radio.driver
    × (t.radio.written ≡ spoken (dialogue 5 18 (some (codes "EEDCAA90")) none none))
    × (t.printed ≡ Line.provisioned 5 18 (some (codes "EEDCAA90")) none none ∷ [])
provision-stores_example =
    provision-stores 5 18 (some (codes "EEDCAA90")) none none prepared arguments-fit prepared-Ready

-- Where that run ends.
abbrev provisioned : Shell
provisioned =
    (provision-stores 5 18 (some (codes "EEDCAA90")) none none prepared arguments-fit
      prepared-Ready).0

provision_iff_example :
    Gives (provision 5 18 (some (codes "EEDCAA90")) none none) prepared tt provisioned
    ↔ Provisioned 5 18 (some (codes "EEDCAA90")) none none prepared provisioned
provision_iff_example = provision_iff 5 18 (some (codes "EEDCAA90")) none none prepared provisioned

abbrev arrival : Arrival
arrival = record { event = hello; start = 0; now = 20; times = 70 ∷ []; late = 1000 }

arrival-IsTimely : IsTimely arrival
arrival-IsTimely = record {
  is_heard = hello-IsHeard;
  soon = omega arith;
  early = omega arith;
  over = omega arith;
}

abbrev listening : Shell
listening = record { radio = from_port; calls = arrival_call arrival ∷ []; printed = [] }

listen-arrivals_example :
    (t : Shell) × (listen_loop (false ∷ true ∷ []) listening ≡ listen_loop (true ∷ []) t)
    × (t.printed ≡ arrival_line arrival ∷ [])
    × (t.calls ≡ [])
    × IsListening t.radio.driver
    × (t.radio.events ≡ [])
    × (t.radio.written ≡ [])
listen-arrivals_example =
    listen-arrivals (arrival ∷ []) (true ∷ []) [] listening (arrival-IsTimely, tt) new-IsListening
      refl refl

listen-NotFailed_example : NotFailed (listen (ok tt) (false ∷ true ∷ []) listening)
listen-NotFailed_example = listen-NotFailed (false ∷ true ∷ []) listening
