-- ===== src/Plan/Tests.antt =====
-- plan.py: concrete plans.
use test_serv.Base.{false, ◌≡◌, refl, true, none, some, List, [], ◌∷◌, String}
use test_serv.Base.Text.{all_chars, is_space, partition, has_char, split_lines}
use test_serv.Base.Dict.{lookup, insert}
use test_serv.Plan.Value
use test_serv.Plan.Value.{PyText, ok, is_blob_name, parse_value}
use test_serv.Plan.Tokens.{tokens}
use test_serv.Plan.Args.{is_arg_name, parse_arg, parse_args}
use test_serv.Plan.Text.{Op, parse_line, parse_lines, parse_text}
use test_serv.Plan.Tar.{
  Files, opened, Plan, is_unsafe, has_dots, check_args, check_blob_refs, load_member, load_members,
  finish_load, load_tar,
}
use test_serv.Plan.Tar.Sound.{OpsResolve, BlobsSafe, load_tar_lem}

-- A stand-in for Python's text functions: no integers, and every character a letter.
abbrev letters : PyText
letters = record { is_alnum = λ c. true; is_alpha = λ c. true; int_of = λ base s. none }

abbrev plan_text : String
plan_text = "mark\ndsp:boot image=@fw\n"

abbrev plan_ops : List Op
plan_ops =
    record { lineno = 1; device = none; verb = "mark"; args = [] }
    ∷ record {
      lineno = 2;
      device = some "dsp";
      verb = "boot";
      args = ("image", Value.blob "fw") ∷ [];
    }
    ∷ []

abbrev one_tar : Files
one_tar = record {
  members = λ tar. opened (
      record { name = "plan.txt"; is_file = true; is_truncated = false; body = [] }
      ∷ record { name = "fw"; is_file = true; is_truncated = false; body = 1 ∷ 2 ∷ [] }
      ∷ []);
  decode = λ raw. some plan_text;
  decode_lossy = λ raw. plan_text;
}

abbrev one_plan : Plan
one_plan = record { ops = plan_ops; blobs = ("fw", 1 ∷ 2 ∷ []) ∷ []; text = plan_text }

one_tar-load : load_tar one_tar letters [] ≡ ok one_plan
unfolding load_tar load_members load_member is_unsafe has_dots check_blob_refs check_args
    finish_load parse_text parse_lines split_lines parse_line all_chars is_space tokens has_char
    lookup parse_args partition parse_arg is_arg_name parse_value is_blob_name insert
one_tar-load = refl

load_tar_lem_example :
    (parse_text letters plan_text ≡ ok plan_ops)
    × OpsResolve one_plan.blobs plan_ops
    × BlobsSafe one_plan.blobs
load_tar_lem_example = load_tar_lem one_tar letters [] one_tar-load
