-- ===== src/Tool/Provisioning.antt =====
-- `provision` of rylr998-tool/src/commands.rs on a radio that stores what it is told: the command, the
-- methods of rylr998-std, the driver, the encoder and the decoder together.
use rylr998_rs.Base.{ℕ, List, ◌≡◌, refl, sym, ap, subst, [], ◌∷◌, ◌++◌, Option, Bytes}
use rylr998_rs.Types.{RfParams, Response, IsU8, IsU16, IsU32, IsRfParams}
use rylr998_rs.FixedVec.{FixedVec}
use rylr998_rs.Decode.Text.{IsPassword}
use rylr998_rs.Driver.Exchange.{IsQuiet}
use rylr998_rs.Tool.Ascii.{SameLetters}
use rylr998_rs.Tool.Shell.{Line, Shell}
use rylr998_rs.Tool.Commands.{provision}
use rylr998_rs.Tool.Provision.{Gives, provision_iff}
use rylr998_rs.Tool.Exchange.{Ready, Wrote, Wrote-then}
use rylr998_rs.Tool.Settings.{
  address_setting, network_id_setting, cpin_setting, band_setting, parameters_setting,
}
use rylr998_rs.Tool.Dialogue.{
  Dialogue, spoken, answers, spoken-append, answers-append, if_given, IfGiven, part, Held, stored,
  stored_if,
}

module _ ⦃v : FixedVec⦄ where
  -- All that `provision` says, and the answers of a radio that stores what it is told.
  abbrev pub dialogue : ℕ → ℕ → Option Bytes → Option ℕ → Option RfParams → Dialogue
  dialogue address net cpin band params =
      part address_setting address
      ++ (part network_id_setting net
          ++ (if_given (part cpin_setting) cpin
              ++ (if_given (part band_setting) band ++ if_given (part parameters_setting) params)))

  -- The arguments have the types of the command line, and the password is one.
  pub record IsProvision (address net : ℕ) (cpin : Option Bytes) (band : Option ℕ)
      (params : Option RfParams) : Type 0 where
    pub address_fits : IsU16 address
    pub net_fits : IsU8 net
    pub cpin_fits : IfGiven IsPassword cpin
    pub band_fits : IfGiven IsU32 band
    pub params_fit : IfGiven IsRfParams params

  Held-append :
      (d e : Dialogue) (rs : List Response) {s m t : Shell}
      → Held d (answers e rs) s m
      → Held e rs m t
      → Held (d ++ e) rs s t
  Held-append d e rs {s} {m} {t} f g = record {
    ready = g.ready;
    wrote = subst (λ w. Wrote w s t) (sym (spoken-append d e)) (Wrote-then f.wrote g.wrote);
  }

  first_part :
      (d e : Dialogue) (rs : List Response) {s : Shell}
      → Ready (answers (d ++ e) rs) s
      → Ready (answers d (answers e rs)) s
  first_part d e rs {s} = subst (λ r. Ready r s) (answers-append d e rs)

  -- `provision` on a radio with nothing to do succeeds, if each command is answered, with the
  -- whole line of the answer in the first read of its call and before its deadline, if the radio
  -- stores what it is told, and if what it is told is well-typed, the password eight hexadecimal
  -- digits that are not all zero. It has then written exactly the lines of its commands in order
  -- and printed one line, and the radio has nothing to do again.
  pub provision-stores :
      (address net : ℕ) (cpin : Option Bytes) (band : Option ℕ) (params : Option RfParams)
      (s : Shell)
      → IsProvision address net cpin band params
      → Ready (answers (dialogue address net cpin band params) []) s
      → (t : Shell) × Gives (provision address net cpin band params) s tt t
        × IsQuiet t.radio.driver
        × (t.radio.written ≡ s.radio.written ++ spoken (dialogue address net cpin band params))
        × (t.printed ≡ s.printed ++ Line.provisioned address net cpin band params ∷ [])
  unfolding address_setting network_id_setting cpin_setting band_setting parameters_setting
  provision-stores address net cpin band params s fits ready =
      let d1 = part address_setting address in
      let d2 = part network_id_setting net in
      let d3 = if_given (part cpin_setting) cpin in
      let d4 = if_given (part band_setting) band in
      let d5 = if_given (part parameters_setting) params in
      let e4 = d4 ++ d5 in
      let e3 = d3 ++ e4 in
      let e2 = d2 ++ e3 in
      let (s1, p1, h1) =
        stored address_setting (λ a b. a ≡ b) (λ a. refl) address (answers e2 []) s
          fits.address_fits (first_part d1 e2 [] ready) in
      let (s2, p2, h2) =
        stored network_id_setting (λ a b. a ≡ b) (λ a. refl) net (answers e3 []) s1 fits.net_fits
          (first_part d2 e3 [] h1.ready) in
      let (s3, p3, h3) =
        stored_if cpin_setting SameLetters (λ a. refl) cpin (answers e4 []) s2 fits.cpin_fits
          (first_part d3 e4 [] h2.ready) in
      let (s4, p4, h4) =
        stored_if band_setting (λ a b. a ≡ b) (λ a. refl) band (answers d5 []) s3 fits.band_fits
          (first_part d4 d5 [] h3.ready) in
      let (s5, p5, h5) =
        stored_if parameters_setting (λ a b. a ≡ b) (λ a. refl) params [] s4 fits.params_fit
          h4.ready in
      let held =
        Held-append d1 e2 [] h1
          (Held-append d2 e3 [] h2 (Held-append d3 e4 [] h3 (Held-append d4 d5 [] h4 h5))) in
      let t = record s5 {
        printed = s5.printed ++ Line.provisioned address net cpin band params ∷ [];
      } in
      (
        t,
        (provision_iff address net cpin band params s t).1 (record {
          behind_address = s1;
          behind_network_id = s2;
          behind_cpin = s3;
          behind_band = s4;
          behind_params = s5;
          address_is = p1;
          network_id_is = p2;
          cpin_is = p3;
          band_is = p4;
          params_is = p5;
          reported = refl;
        }),
        held.ready.quiet,
        held.wrote.written,
        ap (λ z. z ++ Line.provisioned address net cpin band params ∷ []) held.wrote.printed,
      )
