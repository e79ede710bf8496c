-- ===== src/Tool/Dialogue.antt =====
-- What rylr998-tool/src/commands.rs and a radio say to one another when a setting is written and read
-- back.
use rylr998_rs.Base.{
  ◌≡◌, refl, sym, ap, ◌∙◌, subst, List, [], ◌∷◌, ◌++◌, append_assoc, append-nil, Option, none, some,
  Bytes, Outcome, ok,
}
use rylr998_rs.Types.{Command, Response, IsTyped}
use rylr998_rs.FixedVec.{FixedVec}
use rylr998_rs.Encode.Wire.{wire}
use rylr998_rs.Encode.Fits.{IsBrief}
use rylr998_rs.Decode.Text.{IsResponse}
use rylr998_rs.Decode.Short.{IsTidy}
use rylr998_rs.Driver.{kind_of}
use rylr998_rs.Driver.Exchange.{Answers}
use rylr998_rs.Radio.{Error}
use rylr998_rs.Radio.Methods
use rylr998_rs.Tool.Shell.{Shell, Method}
use rylr998_rs.Tool.Provision.{Stored, StoredIf}
use rylr998_rs.Tool.Exchange.{Ready, Wrote, Wrote-then, Requests, call-answer}

-- What is sent to the radio, and what it answers to each command.
abbrev pub Dialogue : Type 0
Dialogue = List (Command × Response)

abbrev pub spoken : Dialogue → Bytes
spoken [] = []
spoken ((cmd, r) ∷ d) = wire cmd ++ spoken d

abbrev pub answers : Dialogue → List Response → List Response
answers [] rs = rs
answers ((cmd, r) ∷ d) rs = r ∷ answers d rs

pub spoken-append : (d e : Dialogue) → spoken (d ++ e) ≡ spoken d ++ spoken e
spoken-append [] e = refl
spoken-append ((cmd, r) ∷ d) e =
    ap (λ w. wire cmd ++ w) (spoken-append d e)
    ∙ sym (append_assoc (wire cmd) (spoken d) (spoken e))

pub answers-append :
    (d e : Dialogue) (rs : List Response) → answers (d ++ e) rs ≡ answers d (answers e rs)
answers-append [] e rs = refl
answers-append ((cmd, r) ∷ d) e rs = ap (λ t. r ∷ t) (answers-append d e rs)

-- A setting is written and read back.
abbrev pub stores : Command → Command → Response → Dialogue
stores set get r = (set, Response.ok) ∷ (get, r) ∷ []

abbrev pub if_given : {A : Type 0} → (A → Dialogue) → Option A → Dialogue
if_given part none = []
if_given part (some a) = part a

abbrev pub IfGiven : {A : Type 0} → (A → Type 0) → Option A → Type 0
IfGiven P none = Unit
IfGiven P (some a) = P a

module _ ⦃v : FixedVec⦄ where
  -- A setting of the radio: the methods that write and read it, their commands, the response that
  -- shows a value, and the values for which an exchange of these works.
  pub record Setting (A : Type 0) : Type 1 where
    pub set : A → Method (Unit {0})
    pub get : Method A
    pub set_command : A → Command
    pub get_command : Command
    pub shown : A → Response
    pub want : Response → Option (Outcome Error A)
    pub Fits : A → Type 0
    pub set_requests : (a : A) → Requests (set a) (set_command a) Methods.wait_ok
    pub get_requests : Requests get get_command want
    pub set_typed : (a : A) → Fits a → IsTyped (set_command a)
    pub set_brief : (a : A) → Fits a → IsBrief (set_command a)
    pub set_answered : (a : A) → Answers (kind_of (set_command a)) Response.ok
    pub get_typed : IsTyped get_command
    pub get_brief : IsBrief get_command
    pub get_answered : (a : A) → Answers (kind_of get_command) (shown a)
    pub shown_good : (a : A) → Fits a → IsResponse (shown a)
    pub shown_tidy : (a : A) → IsTidy (shown a)
    pub wanted : (a : A) → want (shown a) ≡ some (ok a)

  -- What is said about one value of it.
  abbrev pub part : {A : Type 0} → Setting A → A → Dialogue
  part setting a = stores (setting.set_command a) setting.get_command (setting.shown a)

  -- Between the two states the dialogue has been held, and these answers are still to come.
  pub record Held (d : Dialogue) (rs : List Response) (s t : Shell) : Type 0 where
    pub ready : Ready rs t
    pub wrote : Wrote (spoken d) s t

  -- A setting that a radio stores is found stored.
  module _ {A : Type 0} (setting : Setting A) (Agrees : A → A → Type 0)
      (agree : (a : A) → Agrees a a) where
    pub stored :
        (a : A) (rs : List Response) (s : Shell)
        → setting.Fits a
        → Ready (answers (part setting a) rs) s
        → (t : Shell) × Stored setting.set setting.get Agrees a s t × Held (part setting a) rs s t
    unfolding Methods.wait_ok
    stored a rs s fits ready =
        let (m, set_ok, ready_m, wrote_m) =
          call-answer (setting.set a) (setting.set_command a) Methods.wait_ok Response.ok
            (setting.shown a ∷ rs) s (setting.set_requests a) (setting.set_typed a fits)
            (setting.set_brief a fits) (setting.set_answered a) tt tt refl ready in
        let (t, get_ok, ready_t, wrote_t) =
          call-answer setting.get setting.get_command setting.want (setting.shown a) rs m
            setting.get_requests setting.get_typed setting.get_brief (setting.get_answered a)
            (setting.shown_good a fits) (setting.shown_tidy a) (setting.wanted a) ready_m in
        (
          t,
          record { written = m; read = a; set_ok = set_ok; get_ok = get_ok; agrees = agree a },
          record {
            ready = ready_t;
            wrote =
                subst (λ w. Wrote (wire (setting.set_command a) ++ w) s t)
                  (sym (append-nil (wire setting.get_command))) (Wrote-then wrote_m wrote_t);
          },
        )

    pub stored_if :
        (o : Option A) (rs : List Response) (s : Shell)
        → IfGiven setting.Fits o
        → Ready (answers (if_given (part setting) o) rs) s
        → (t : Shell) × StoredIf setting.set setting.get Agrees o s t
          × Held (if_given (part setting) o) rs s t
    stored_if none rs s fits ready = (
      s,
      refl,
      record {
        ready = ready;
        wrote = record {
          written = sym (append-nil s.radio.written);
          events = refl;
          printed = refl;
        };
      },
    )
    stored_if (some a) rs s fits ready = stored a rs s fits ready
