-- ===== src/Command/Tests.antt =====
-- A run of `user rm`, and its theorem at a concrete input.
use Prim.Native.String.{String}
use lotsman.Prelude.{◌≡◌, refl, true, false, Option, none, some, List, [], ◌∷◌, string_eq, nat_eq}
use lotsman.Store.{Tables, Row, Statement}
use lotsman.Command.{Flags, user_remove}
use lotsman.Command.Removal.{IsRemoved, user_remove-IsRemoved}

abbrev row : String → String → Row
row device profile = record {
  id = 1;
  user_id = 7;
  device = device;
  profile = profile;
  private_key = 0;
  public_key = 0;
  ip = 167772162;
  created_at = "";
}

abbrev tables : Tables
tables = record {
  users = record { id = 7; name = "alice"; created_at = "" } ∷ [];
  rows = row "phone" "web" ∷ row "phone" "nl" ∷ row "laptop" "web" ∷ [];
}

-- `user rm alice -device phone`
abbrev phone : List String → Option Flags
phone args =
    some (record { profile = ""; device = "phone"; device_set = true; qr = false; rest = [] })

abbrev args : List String
args = "alice" ∷ "-device" ∷ "phone" ∷ []

abbrev sound : Statement → Option String
sound s = none

remove_run :
    user_remove sound phone none args tables
    ≡ (none, record tables { rows = row "laptop" "web" ∷ [] })
unfolding user_remove
remove_run = refl

user_remove-IsRemoved_example :
    IsRemoved phone args tables (user_remove sound phone none args tables)
user_remove-IsRemoved_example = user_remove-IsRemoved sound phone none args tables
