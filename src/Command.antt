-- ===== src/Command.antt =====
-- cmd/lotsman/user.go: the arguments of the user commands, and userRemove. The flag package's parser is
-- a parameter, and so is the error of openEnv. The signal to a running daemon changes nothing here.
pub mod Removal
pub mod Tests
use Prim.Native.String.{String}
use lotsman.Prelude.{
  ℕ, Bool, true, false, not, ◌&&◌, ◌||◌, Option, none, some, List, [], ◌∷◌, ◌==◌, nat_eq, string_eq,
  if◌then◌else◌,
}
use lotsman.Bytes.{codes}
use lotsman.Store.{
  Tables, Peer, Key, Error, Reply, Statement, exists, done, err, create_user, add_peer, delete_user,
  delete_peers,
}

-- What the flags after NAME are parsed to: `device` has its default where the flag is not given.
pub record Flags : Type 0 where
  pub profile : String
  pub device : String
  pub device_set : Bool
  pub qr : Bool
  pub rest : List String

pub record UserArgs : Type 0 where
  pub name : String
  pub device : String
  pub profile : String
  pub device_set : Bool
  pub qr : Bool

pub data CommandError : Type 0 where
  name_required no_profile bad_flags : CommandError
  unexpected_argument : String → CommandError
  environment : String → CommandError
  store : Error → CommandError

pub data Parsed : Type 0 where
  refused : CommandError → Parsed
  accepted : UserArgs → Parsed

-- `args[0] == "" || args[0][0] == '-'`
abbrev is_flag : List ℕ → Bool
is_flag [] = true
is_flag (c ∷ cs) = c == b'-'

unfoldable pub parse_flags_after : Bool → String → Option Flags → Parsed
parse_flags_after profile_required name none = refused bad_flags
parse_flags_after profile_required name (some f) = elim f.rest [
  | extra ∷ more ↦ refused (unexpected_argument extra)
  | [] ↦
      if profile_required && f.profile == ""
      then refused no_profile
      else accepted (record {
        name = name;
        device = f.device;
        profile = f.profile;
        device_set = f.device_set;
        qr = f.qr;
      })
]

unfoldable pub parse_user_args : (List String → Option Flags) → Bool → List String → Parsed
unfolding parse_flags_after
parse_user_args flags profile_required [] = refused name_required
parse_user_args flags profile_required (name ∷ more) =
    if is_flag (codes name)
    then refused name_required
    else parse_flags_after profile_required name (flags more)

module _ (fault : Statement → Option String) where
  -- The switch of userRemove.
  unfoldable pub remove_selected : UserArgs → Tables → Option Error × Tables
  unfolding delete_peers delete_user
  remove_selected a t =
      if not (a.profile == "")
      then delete_peers fault a.name a.device (some a.profile) t
      else if a.device_set
      then delete_peers fault a.name a.device none t
      else delete_user fault a.name t

  abbrev pub removed : Option Error × Tables → Option CommandError × Tables
  removed (none, t) = (none, t)
  removed (some e, t) = (some (store e), t)

  -- `opened` is the error of openEnv.
  unfoldable pub user_remove :
      (List String → Option Flags)
      → Option String
      → List String
      → Tables
      → Option CommandError × Tables
  unfolding parse_user_args remove_selected
  user_remove flags opened args t = elim (parse_user_args flags false args) [
    | refused e ↦ (some e, t)
    | accepted a ↦ elim opened [
      | some e ↦ (some (environment e), t)
      | none ↦ removed (remove_selected a t)
    ]
  ]
