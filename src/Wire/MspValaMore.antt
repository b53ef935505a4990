-- ===== src/Wire/MspValaMore.antt =====
-- The structs of src/common/mspmsg.vala behind MSP_COMP_GPS.
use mwptools.Common.{none, List, [], ◌∷◌}
use mwptools.Wire.Layout.{Binding, field, i16, i32, u16, u32, u8}

abbrev pub msp_analog : Binding
msp_analog = record {
  name = "MSP_ANALOG";
  fields = field "vbat" u8 ∷ field "powermetersum" u16 ∷ field "rssi" u16 ∷ field "amps" u16 ∷ [];
  items = none;
}

abbrev pub msp_analog2 : Binding
msp_analog2 = record {
  name = "MSP_ANALOG2";
  fields =
      field "flags" u8
      ∷ field "vbat" u16
      ∷ field "amps" u16
      ∷ field "powerdraw" u32
      ∷ field "mahdraw" u32
      ∷ field "mwhdraw" u32
      ∷ field "remcapa" u32
      ∷ field "battpct" u8
      ∷ field "rssi" u16
      ∷ [];
  items = none;
}

abbrev pub msp_nav_poshold : Binding
msp_nav_poshold = record {
  name = "MSP_NAV_POSHOLD";
  fields =
      field "nav_user_control_mode" u8
      ∷ field "nav_max_speed" u16
      ∷ field "nav_max_climb_rate" u16
      ∷ field "nav_manual_speed" u16
      ∷ field "nav_manual_climb_rate" u16
      ∷ field "nav_mc_bank_angle" u8
      ∷ field "nav_use_midthr_for_althold" u8
      ∷ field "nav_mc_hover_thr" u16
      ∷ record { name = "reserved"; scalar = u8; count = 8 }
      ∷ [];
  items = none;
}

abbrev pub msp_fw_config : Binding
msp_fw_config = record {
  name = "MSP_FW_CONFIG";
  fields =
      field "cruise_throttle" u16
      ∷ field "min_throttle" u16
      ∷ field "max_throttle" u16
      ∷ field "max_bank_angle" u8
      ∷ field "max_climb_angle" u8
      ∷ field "max_dive_angle" u8
      ∷ field "pitch_to_throttle" u8
      ∷ field "loiter_radius" u16
      ∷ [];
  items = none;
}

abbrev pub ltm_gframe : Binding
ltm_gframe = record {
  name = "LTM_GFRAME";
  fields =
      field "lat" i32 ∷ field "lon" i32 ∷ field "speed" u8 ∷ field "alt" i32 ∷ field "sats" u8 ∷ [];
  items = none;
}

abbrev pub ltm_aframe : Binding
ltm_aframe = record {
  name = "LTM_AFRAME";
  fields = field "pitch" i16 ∷ field "roll" i16 ∷ field "heading" i16 ∷ [];
  items = none;
}

abbrev pub ltm_sframe : Binding
ltm_sframe = record {
  name = "LTM_SFRAME";
  fields =
      field "vbat" u16
      ∷ field "vcurr" u16
      ∷ field "rssi" u8
      ∷ field "airspeed" u8
      ∷ field "flags" u8
      ∷ [];
  items = none;
}

abbrev pub ltm_oframe : Binding
ltm_oframe = record {
  name = "LTM_OFRAME";
  fields =
      field "lat" i32 ∷ field "lon" i32 ∷ field "alt" i32 ∷ field "osd" u8 ∷ field "fix" u8 ∷ [];
  items = none;
}

abbrev pub ltm_xframe : Binding
ltm_xframe = record {
  name = "LTM_XFRAME";
  fields =
      field "hdop" u16
      ∷ field "sensorok" u8
      ∷ field "ltm_x_count" u8
      ∷ field "disarm_reason" u8
      ∷ field "spare" u8
      ∷ [];
  items = none;
}

abbrev pub cf_mode_ranges : Binding
cf_mode_ranges = record {
  name = "CF_MODE_RANGES";
  fields =
      field "perm_id" u8 ∷ field "auxchanid" u8 ∷ field "startstep" u8 ∷ field "endstep" u8 ∷ [];
  items = none;
}

abbrev pub msp_wp_getinfo : Binding
msp_wp_getinfo = record {
  name = "MSP_WP_GETINFO";
  fields = field "wp_cap" u8 ∷ field "max_wp" u8 ∷ field "wps_valid" u8 ∷ field "wp_count" u8 ∷ [];
  items = none;
}

abbrev pub msp_gpsstatistics : Binding
msp_gpsstatistics = record {
  name = "MSP_GPSSTATISTICS";
  fields =
      field "last_message_dt" u16
      ∷ field "errors" u32
      ∷ field "timeouts" u32
      ∷ field "packet_count" u32
      ∷ field "hdop" u16
      ∷ field "eph" u16
      ∷ field "epv" u16
      ∷ [];
  items = none;
}

unfoldable pub more_vala_structs : List Binding
more_vala_structs =
    msp_analog ∷ msp_analog2 ∷ msp_nav_poshold ∷ msp_fw_config ∷ ltm_gframe ∷ ltm_aframe
    ∷ ltm_sframe ∷ ltm_oframe ∷ ltm_xframe ∷ cf_mode_ranges ∷ msp_wp_getinfo ∷ msp_gpsstatistics
    ∷ []
