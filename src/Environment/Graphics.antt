-- ===== src/Environment/Graphics.antt =====
-- `get_glinfo` of src/clib/mwp_glinfo.c.
use mwptools.Common.{ℕ, ◌-◌, Bool, ◌&&◌, Option, none, some, List, if◌then◌else◌}

-- libGL: whether its path is built and it opens, and the vendor and the renderer that its function
-- `glGetString` returns, NULL being `none`; `none` in place of both where it has no such function.
pub record Driver : Type 0 where
  pub path : Bool
  pub opens : Bool
  pub strings : Option (Option (List ℕ) × Option (List ℕ))

-- What is written through `vendp` and `rendp`, and how often the library stays open. `g_strdup` of NULL
-- is NULL.
pub record Info : Type 0 where
  pub vendor : Option (Option (List ℕ))
  pub renderer : Option (Option (List ℕ))
  pub modules : ℕ

abbrev pub untouched : Info
untouched = record { vendor = none; renderer = none; modules = 0 }

abbrev pub read_strings : Option (Option (List ℕ) × Option (List ℕ)) → Info → Info
read_strings none s = s
read_strings (some (vendor, renderer)) s = record s {
  vendor = some vendor;
  renderer = some renderer;
}

unfoldable pub get_glinfo : Driver → Info
get_glinfo d =
    if d.path && d.opens
    then (let s = read_strings d.strings (record untouched { modules = 1 }) in
        record s { modules = s.modules - 1 })
    else untouched
