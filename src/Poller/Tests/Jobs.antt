-- ===== src/Poller/Tests/Jobs.antt =====
-- poller.py: a job from its pickup to the server.
use Prim.Native.String.{◌++◌}
use test_serv.Base.{◌≡◌, ◌+◌, ◌⊎◌, refl, true, false, ◌&&◌, none, some, [], ◌∷◌, String, ltb, leb}
use test_serv.Base.Dict.{lookup, contains}
use test_serv.Base.Text.{partition, all_chars}
use test_serv.Server.Digest.{is_hex}
use test_serv.Server.Store.{Bytes, State, Externals, empty_state, reply, plan}
use test_serv.Server.Upload.{fetch_output}
use test_serv.Plan.Value.{unicode_error, tar_error, ok, err}
use test_serv.Plan.Tar.{Plan, TarFile, load_tar}
use test_serv.Poller.Spool.{Moment, spool_digest, spool_name, post_spooled}
use test_serv.Poller.Spool.Kept.{body_of}
use test_serv.Poller.Spool.Delivered.{answer, posted_of, delivered}
use test_serv.Poller.Dispatch.{Bench, World, validate_against_plugins, dispatch, worker}
use test_serv.Poller.Dispatch.Spooled.{worker_lem, artefact_of}
use test_serv.Poller.Tests.{job, tar_name, tar_file, one_spooled, found_file}

-- A hash that gives one digest, and a decoder that refuses everything.
abbrev outside : Externals
outside = record { sha256 = λ b. job; loads = λ raw. none }

abbrev running : State
running = record empty_state { done = (job, record { mtime = 0; body = 7 ∷ [] }) ∷ [] }

abbrev noon : Moment
noon = record { wall = 1_000; mono = 1_000; can_park = true }

named : spool_digest tar_name ≡ some job
unfolding spool_digest partition all_chars is_hex
named = refl

delivered_example :
    let a = answer outside 9 false job (7 ∷ []) running in
    let o =
      post_spooled noon
        (λ digest body. posted_of (answer outside 9 false digest body running).0)
        tar_name
        one_spooled in
    (o.0 ≡ true
      → (fetch_output (job ++ ".tar") a.1 ≡ reply 200 (plan (7 ∷ []) []))
        × (lookup tar_name o.1.pending ≡ none))
    × (o.0 ≡ false
        → (a.1 ≡ running)
          × ((leb 400 a.0.code && ltb a.0.code 500) ≡ false
              → lookup tar_name o.1.pending ≡ some tar_file))
delivered_example =
    delivered outside 9 false noon tar_name job tar_file one_spooled running named found_file

-- A payload that is no tar.
abbrev no_tar : World
no_tar = record {
  sha256 = λ b. job;
  files = record { members = λ b. TarFile.no_tar; decode = λ b. none; decode_lossy = λ b. "" };
  text = record { is_alnum = λ c. true; is_alpha = λ c. true; int_of = λ n s. none };
  failure_artefact = λ digest why. 9 ∷ [];
  during = λ digest p s. (none, s);
  wall = 5;
  uuid = "cd";
}

abbrev idle_bench : Bench
idle_bench = record { active = []; spool = one_spooled; slots = 1 }

worker_lem_example :
    let loaded = load_tar no_tar.files no_tar.text (1 ∷ []) in
    let o = worker no_tar [] (1 ∷ []) idle_bench in
    ((o.0 ≡ none)
      → (loaded ≡ err unicode_error)
        ⊎ (loaded ≡ err tar_error)
        ⊎ ((p : Plan) × (loaded ≡ ok p)
            × (validate_against_plugins [] p.ops ≡ none)
            × ((no_tar.during job p (record idle_bench { active = job ∷ [] })).0 ≡ none)))
    × ((name : String)
        → o.0 ≡ some name
        → (name ≡ spool_name job "cd")
          × ((tar : Bytes) × (artefact_of no_tar [] job loaded idle_bench ≡ some tar)
              × (body_of (lookup name o.1.spool.pending) ≡ some tar)))
    × (o.1.slots ≡ (dispatch no_tar [] (1 ∷ []) idle_bench).1.slots + 1)
    × (contains job idle_bench.active ≡ false → contains job o.1.active ≡ false)
worker_lem_example = worker_lem no_tar [] (1 ∷ []) idle_bench
