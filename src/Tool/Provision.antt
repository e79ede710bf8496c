-- ===== src/Tool/Provision.antt =====
-- `provision` of rylr998-tool/src/commands.rs: what its success means.
use rylr998_rs.Base.{
  ℕ, ◌==◌, ==_iff, ◌≡◌, ◌↔◌, refl, ap, ◌∙◌, Bool, true, false, [], ◌∷◌, ◌++◌, Option, none, some,
  arith, Bytes, ok, err, panic,
}
use rylr998_rs.Types.{RfParams}
use rylr998_rs.FixedVec.{FixedVec}
use rylr998_rs.Radio.Methods
use rylr998_rs.Tool.Ascii.{eq_ignore_ascii_case, SameLetters, eq_ignore_ascii_case_iff}
use rylr998_rs.Tool.Shell.{
  Field, Line, Shell, Ran, finished, pending, Session, Method, continue, ◌>>=◌, call,
}
use rylr998_rs.Tool.Commands.{
  eq_params, verify, set_and_verify, if_some, address_block, network_id_block, cpin_block,
  band_block, params_block, provision,
}

-- The session ends with this value, in this state.
abbrev pub Gives : {A : Type 0} → Session A → Shell → A → Shell → Type 0
Gives run s a t = run s ≡ finished (ok a) t

-- A value of a chain comes from its second part, behind a value of the first.
Gives-then :
    {A B : Type 0} (first : Session A) (next : A → Session B) (s : Shell) {b : B} {t : Shell}
    → Gives (first >>= next) s b t
    → (a : A) × (m : Shell) × Gives first s a m × Gives (next a) m b t
Gives-then {A} {B} first next s {b} {t} h = split (first s) h
  where
    split :
        (r : Ran A)
        → continue r next ≡ finished (ok b) t
        → (a : A) × (m : Shell) × (r ≡ finished (ok a) m) × Gives (next a) m b t
    split (pending m) e = cc
    split (finished panic m) e = cc
    split (finished (err f) m) e = cc
    split (finished (ok a) m) e = (a, m, refl, e)

then-Gives :
    {A B : Type 0} (first : Session A) (next : A → Session B) (s : Shell) {a : A} {m : Shell}
    → Gives first s a m
    → (first >>= next) s ≡ next a m
then-Gives first next s h = ap (λ r. continue r next) h

-- A setting has been written, read back, and found to agree.
pub record Stored {A : Type 0} (set : A → Method (Unit {0})) (get : Method A)
    (Agrees : A → A → Type 0) (wanted : A) (s t : Shell) : Type 0 where
  pub written : Shell
  pub read : A
  pub set_ok : Gives (call (set wanted)) s tt written
  pub get_ok : Gives (call get) written read t
  pub agrees : Agrees read wanted

-- The same for an optional setting: without it nothing happens.
abbrev pub StoredIf :
    {A : Type 0}
    → (A → Method (Unit {0}))
    → Method A
    → (A → A → Type 0)
    → Option A
    → Shell
    → Shell
    → Type 0
StoredIf set get Agrees none s t = s ≡ t
StoredIf set get Agrees (some wanted) s t = Stored set get Agrees wanted s t

verify_ok :
    (field : Field) (b : Bool) {s t : Shell} → Gives (verify field b) s tt t → (b ≡ true) × (s ≡ t)
verify_ok field true h = (refl, cc)
verify_ok field false h = cc

module _ {A : Type 0} (field : Field) (set : A → Method (Unit {0})) (get : Method A)
    (same : A → A → Bool) (Agrees : A → A → Type 0)
    (same_iff : (a b : A) → (same a b ≡ true) ↔ Agrees a b) where
  set_and_verify_iff :
      (wanted : A) (s t : Shell)
      → Gives (set_and_verify field set get same wanted) s tt t ↔ Stored set get Agrees wanted s t
  unfolding set_and_verify
  set_and_verify_iff wanted s t = (
    λ h.
        let (u, m, set_ok, rest) = Gives-then (call (set wanted)) _ s h in
        let (a, n, get_ok, checked) = Gives-then (call get) _ m rest in
        let (agree, end) = verify_ok field (same a wanted) checked in
        record {
          written = m;
          read = a;
          set_ok = set_ok;
          get_ok = get_ok ∙ ap (λ z. finished (ok a) z) end;
          agrees = (same_iff a wanted).0 agree;
        },
    λ h.
        then-Gives (call (set wanted)) _ s h.set_ok
        ∙ then-Gives (call get) _ h.written h.get_ok
        ∙ ap (λ b. verify field b t) ((same_iff h.read wanted).1 h.agrees),
  )

  if_some_iff :
      (o : Option A) (s t : Shell)
      → Gives (if_some o (set_and_verify field set get same)) s tt t ↔ StoredIf set get Agrees o s t
  if_some_iff none s t = (λ h. cc, λ h. ap (λ z. finished (ok tt) z) h)
  if_some_iff (some wanted) s t = set_and_verify_iff wanted s t

eq_params_iff : (p q : RfParams) → (eq_params p q ≡ true) ↔ (p ≡ q)
eq_params_iff p q = ground arith

module _ ⦃v : FixedVec⦄ where
  -- The settings have been written and have been read back as they were asked for (the password up to
  -- the case of its letters), one behind the other, and the last line has been printed.
  pub record Provisioned (address net : ℕ) (cpin : Option Bytes) (band : Option ℕ)
      (params : Option RfParams) (s t : Shell) : Type 0 where
    pub behind_address : Shell
    pub behind_network_id : Shell
    pub behind_cpin : Shell
    pub behind_band : Shell
    pub behind_params : Shell
    pub address_is :
        Stored Methods.set_address Methods.address (λ a b. a ≡ b) address s behind_address
    pub network_id_is :
        Stored Methods.set_network_id Methods.network_id
          (λ a b. a ≡ b)
          net
          behind_address
          behind_network_id
    pub cpin_is :
        StoredIf Methods.set_cpin Methods.cpin SameLetters cpin behind_network_id behind_cpin
    pub band_is : StoredIf Methods.set_band Methods.band (λ a b. a ≡ b) band behind_cpin behind_band
    pub params_is :
        StoredIf Methods.set_parameters Methods.parameters
          (λ a b. a ≡ b)
          params
          behind_band
          behind_params
    pub reported :
        record behind_params {
          printed = behind_params.printed ++ Line.provisioned address net cpin band params ∷ [];
        }
        ≡ t

  address_iff :
      (n : ℕ) (s t : Shell)
      → Gives (address_block n) s tt t
        ↔ Stored Methods.set_address Methods.address (λ a b. a ≡ b) n s t
  address_iff =
      set_and_verify_iff Field.address Methods.set_address Methods.address ◌==◌ (λ a b. a ≡ b)
        ==_iff

  network_id_iff :
      (n : ℕ) (s t : Shell)
      → Gives (network_id_block n) s tt t
        ↔ Stored Methods.set_network_id Methods.network_id (λ a b. a ≡ b) n s t
  network_id_iff =
      set_and_verify_iff Field.network_id Methods.set_network_id Methods.network_id ◌==◌
        (λ a b. a ≡ b) ==_iff

  cpin_iff :
      (o : Option Bytes) (s t : Shell)
      → Gives (if_some o cpin_block) s tt t
        ↔ StoredIf Methods.set_cpin Methods.cpin SameLetters o s t
  cpin_iff =
      if_some_iff Field.cpin Methods.set_cpin Methods.cpin eq_ignore_ascii_case SameLetters
        eq_ignore_ascii_case_iff

  band_iff :
      (o : Option ℕ) (s t : Shell)
      → Gives (if_some o band_block) s tt t
        ↔ StoredIf Methods.set_band Methods.band (λ a b. a ≡ b) o s t
  band_iff = if_some_iff Field.band Methods.set_band Methods.band ◌==◌ (λ a b. a ≡ b) ==_iff

  params_iff :
      (o : Option RfParams) (s t : Shell)
      → Gives (if_some o params_block) s tt t
        ↔ StoredIf Methods.set_parameters Methods.parameters (λ a b. a ≡ b) o s t
  params_iff =
      if_some_iff Field.parameters Methods.set_parameters Methods.parameters eq_params
        (λ a b. a ≡ b) eq_params_iff

  -- `provision` succeeds exactly if each setting that it is given has been written and then read back
  -- as it was asked for, the password up to the case of its letters; the calls are made one behind
  -- the other, and the settings that it is not given are not touched.
  pub provision_iff :
      (address net : ℕ) (cpin : Option Bytes) (band : Option ℕ) (params : Option RfParams)
      (s t : Shell)
      → Gives (provision address net cpin band params) s tt t
        ↔ Provisioned address net cpin band params s t
  unfolding provision
  provision_iff address net cpin band params s t = (
    λ h.
        let (u1, s1, h1, r1) = Gives-then (address_block address) _ s h in
        let (u2, s2, h2, r2) = Gives-then (network_id_block net) _ s1 r1 in
        let (u3, s3, h3, r3) = Gives-then (if_some cpin cpin_block) _ s2 r2 in
        let (u4, s4, h4, r4) = Gives-then (if_some band band_block) _ s3 r3 in
        let (u5, s5, h5, r5) = Gives-then (if_some params params_block) _ s4 r4 in
        record {
          behind_address = s1;
          behind_network_id = s2;
          behind_cpin = s3;
          behind_band = s4;
          behind_params = s5;
          address_is = (address_iff address s s1).0 h1;
          network_id_is = (network_id_iff net s1 s2).0 h2;
          cpin_is = (cpin_iff cpin s2 s3).0 h3;
          band_is = (band_iff band s3 s4).0 h4;
          params_is = (params_iff params s4 s5).0 h5;
          reported = cc;
        },
    λ h.
        then-Gives (address_block address) _ s
          ((address_iff address s h.behind_address).1 h.address_is)
        ∙ then-Gives (network_id_block net) _ h.behind_address
            ((network_id_iff net h.behind_address h.behind_network_id).1 h.network_id_is)
        ∙ then-Gives (if_some cpin cpin_block) _ h.behind_network_id
            ((cpin_iff cpin h.behind_network_id h.behind_cpin).1 h.cpin_is)
        ∙ then-Gives (if_some band band_block) _ h.behind_cpin
            ((band_iff band h.behind_cpin h.behind_band).1 h.band_is)
        ∙ then-Gives (if_some params params_block) _ h.behind_band
            ((params_iff params h.behind_band h.behind_params).1 h.params_is)
        ∙ ap (λ z. finished (ok tt) z) h.reported,
  )
