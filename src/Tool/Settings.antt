-- ===== src/Tool/Settings.antt =====
-- The settings that `provision` of rylr998-tool/src/commands.rs writes: each with the two methods of
-- rylr998-std/src/radio.rs, their commands and the response that shows a value.
use rylr998_rs.Base.{ℕ, refl, Bytes, inr, arith}
use rylr998_rs.Types.{RfParams, Command, Response, IsU8, IsU16, IsU32, IsRfParams}
use rylr998_rs.FixedVec.{FixedVec}
use rylr998_rs.Decode.Text.{IsPassword}
use rylr998_rs.Driver.{kind_of}
use rylr998_rs.Radio.Methods
use rylr998_rs.Tool.Dialogue.{Setting}

module _ ⦃v : FixedVec⦄ where
  unfoldable pub address_setting : Setting ℕ
  unfolding Methods.set_address Methods.address Methods.wait_address kind_of
  address_setting = record {
    set = Methods.set_address;
    get = Methods.address;
    set_command = Command.set_address;
    get_command = Command.get_address;
    shown = Response.address;
    want = Methods.wait_address;
    Fits = IsU16;
    set_requests = λ a. refl;
    get_requests = refl;
    set_typed = λ a h. h;
    set_brief = λ a h. tt;
    set_answered = λ a. refl;
    get_typed = tt;
    get_brief = tt;
    get_answered = λ a. refl;
    shown_good = λ a h. h;
    shown_tidy = λ a. tt;
    wanted = λ a. refl;
  }

  unfoldable pub network_id_setting : Setting ℕ
  unfolding Methods.set_network_id Methods.network_id Methods.wait_network_id kind_of
  network_id_setting = record {
    set = Methods.set_network_id;
    get = Methods.network_id;
    set_command = Command.set_network_id;
    get_command = Command.get_network_id;
    shown = Response.network_id;
    want = Methods.wait_network_id;
    Fits = IsU8;
    set_requests = λ a. refl;
    get_requests = refl;
    set_typed = λ a h. h;
    set_brief = λ a h. tt;
    set_answered = λ a. refl;
    get_typed = tt;
    get_brief = tt;
    get_answered = λ a. refl;
    shown_good = λ a h. h;
    shown_tidy = λ a. tt;
    wanted = λ a. refl;
  }

  unfoldable pub cpin_setting : Setting Bytes
  unfolding Methods.set_cpin Methods.cpin Methods.wait_cpin kind_of
  cpin_setting = record {
    set = Methods.set_cpin;
    get = Methods.cpin;
    set_command = Command.set_cpin;
    get_command = Command.get_cpin;
    shown = Response.cpin;
    want = Methods.wait_cpin;
    Fits = IsPassword;
    set_requests = λ a. refl;
    get_requests = refl;
    set_typed = λ a h. tt;
    set_brief = λ a h. omega (arith, h.eight);
    set_answered = λ a. refl;
    get_typed = tt;
    get_brief = tt;
    get_answered = λ a. refl;
    shown_good = λ a h. inr h;
    shown_tidy = λ a. tt;
    wanted = λ a. refl;
  }

  unfoldable pub band_setting : Setting ℕ
  unfolding Methods.set_band Methods.band Methods.wait_band kind_of
  band_setting = record {
    set = Methods.set_band;
    get = Methods.band;
    set_command = Command.set_band;
    get_command = Command.get_band;
    shown = Response.band;
    want = Methods.wait_band;
    Fits = IsU32;
    set_requests = λ a. refl;
    get_requests = refl;
    set_typed = λ a h. h;
    set_brief = λ a h. tt;
    set_answered = λ a. refl;
    get_typed = tt;
    get_brief = tt;
    get_answered = λ a. refl;
    shown_good = λ a h. h;
    shown_tidy = λ a. tt;
    wanted = λ a. refl;
  }

  unfoldable pub parameters_setting : Setting RfParams
  unfolding Methods.set_parameters Methods.parameters Methods.wait_parameters kind_of
  parameters_setting = record {
    set = Methods.set_parameters;
    get = Methods.parameters;
    set_command = Command.set_parameters;
    get_command = Command.get_parameters;
    shown = Response.parameters;
    want = Methods.wait_parameters;
    Fits = IsRfParams;
    set_requests = λ a. refl;
    get_requests = refl;
    set_typed = λ a h. h;
    set_brief = λ a h. tt;
    set_answered = λ a. refl;
    get_typed = tt;
    get_brief = tt;
    get_answered = λ a. refl;
    shown_good = λ a h. h;
    shown_tidy = λ a. tt;
    wanted = λ a. refl;
  }
