-- ===== src/Wire/UbloxBinding.antt =====
-- The structs of src/samples/ublox-test/ublox.vapi.
use mwptools.Common.{none, some, List, [], ◌∷◌}
use mwptools.Wire.Layout.{Buffer, Binding, field, i16, i32, i8, u16, u32, u8}

abbrev pub ubx_header : Binding
ubx_header = record {
  name = "ubx_header";
  fields =
      field "preamble1" u8
      ∷ field "preamble2" u8
      ∷ field "msg_class" u8
      ∷ field "msg_id" u8
      ∷ field "length" u16
      ∷ [];
  items = none;
}

abbrev pub ubx_nav_posllh : Binding
ubx_nav_posllh = record {
  name = "ubx_nav_posllh";
  fields =
      field "time" u32
      ∷ field "longitude" i32
      ∷ field "latitude" i32
      ∷ field "altitude_ellipsoid" i32
      ∷ field "altitude_msl" i32
      ∷ field "horizontal_accuracy" u32
      ∷ field "vertical_accuracy" u32
      ∷ [];
  items = none;
}

abbrev pub ubx_nav_solution : Binding
ubx_nav_solution = record {
  name = "ubx_nav_solution";
  fields =
      field "time" u32
      ∷ field "time_nsec" i32
      ∷ field "week" i16
      ∷ field "fix_type" u8
      ∷ field "fix_status" u8
      ∷ field "ecef_x" i32
      ∷ field "ecef_y" i32
      ∷ field "ecef_z" i32
      ∷ field "position_accuracy_3d" u32
      ∷ field "ecef_x_velocity" i32
      ∷ field "ecef_y_velocity" i32
      ∷ field "ecef_z_velocity" i32
      ∷ field "speed_accuracy" u32
      ∷ field "position_DOP" u16
      ∷ field "res" u8
      ∷ field "satellites" u8
      ∷ field "res2" u32
      ∷ [];
  items = none;
}

abbrev pub ubx_nav_velned : Binding
ubx_nav_velned = record {
  name = "ubx_nav_velned";
  fields =
      field "time" u32
      ∷ field "ned_north" i32
      ∷ field "ned_east" i32
      ∷ field "ned_down" i32
      ∷ field "speed_3d" u32
      ∷ field "speed_2d" u32
      ∷ field "heading_2d" i32
      ∷ field "speed_accuracy" u32
      ∷ field "heading_accuracy" u32
      ∷ [];
  items = none;
}

abbrev pub ubx_nav_timeutc : Binding
ubx_nav_timeutc = record {
  name = "ubx_nav_timeutc";
  fields =
      field "itow" u32
      ∷ field "tacc" u32
      ∷ field "nano" i32
      ∷ field "year" u16
      ∷ field "month" u8
      ∷ field "day" u8
      ∷ field "hour" u8
      ∷ field "min" u8
      ∷ field "sec" u8
      ∷ field "valid" u8
      ∷ [];
  items = none;
}

abbrev pub ubx_nav_pvt : Binding
ubx_nav_pvt = record {
  name = "ubx_nav_pvt";
  fields =
      field "time" u32
      ∷ field "year" u16
      ∷ field "month" u8
      ∷ field "day" u8
      ∷ field "hour" u8
      ∷ field "min" u8
      ∷ field "sec" u8
      ∷ field "valid" u8
      ∷ field "tAcc" u32
      ∷ field "nano" i32
      ∷ field "fix_type" u8
      ∷ field "fix_status" u8
      ∷ field "reserved1" u8
      ∷ field "satellites" u8
      ∷ field "longitude" i32
      ∷ field "latitude" i32
      ∷ field "altitude_ellipsoid" i32
      ∷ field "altitude_msl" i32
      ∷ field "horizontal_accuracy" u32
      ∷ field "vertical_accuracy" u32
      ∷ field "ned_north" i32
      ∷ field "ned_east" i32
      ∷ field "ned_down" i32
      ∷ field "speed_2d" i32
      ∷ field "heading_2d" i32
      ∷ field "speed_accuracy" u32
      ∷ field "heading_accuracy" u32
      ∷ field "position_DOP" u16
      ∷ field "reserved2" u16
      ∷ field "reserved3" u16
      ∷ [];
  items = none;
}

abbrev pub ubx_nav_svitem : Binding
ubx_nav_svitem = record {
  name = "ubx_nav_svitem";
  fields =
      field "chn" u8
      ∷ field "svid" u8
      ∷ field "flags" u8
      ∷ field "quality" u8
      ∷ field "cno" u8
      ∷ field "elev" i8
      ∷ field "azim" i16
      ∷ field "prRes" u32
      ∷ [];
  items = none;
}

abbrev pub ubx_nav_svinfo : Binding
ubx_nav_svinfo = record {
  name = "ubx_nav_svinfo";
  fields =
      field "itow" u32
      ∷ field "numch" u8
      ∷ field "globalflags" u8
      ∷ field "res1" u8
      ∷ field "res2" u8
      ∷ [];
  items = some ("ubx_nav_svitem", 32);
}

unfoldable pub ublox_bindings : List Binding
ublox_bindings =
    ubx_header ∷ ubx_nav_posllh ∷ ubx_nav_solution ∷ ubx_nav_velned ∷ ubx_nav_timeutc ∷ ubx_nav_pvt
    ∷ ubx_nav_svitem ∷ ubx_nav_svinfo ∷ []

abbrev pub ublox_buffer : Buffer
ublox_buffer = record {
  members =
      ("ubx_nav_posllh", "posllh")
      ∷ ("ubx_nav_solution", "solution")
      ∷ ("ubx_nav_velned", "velned")
      ∷ ("ubx_nav_timeutc", "timeutc")
      ∷ ("ubx_nav_pvt", "pvt")
      ∷ ("ubx_nav_svinfo", "svinfo")
      ∷ [];
  bytes = 512;
}
