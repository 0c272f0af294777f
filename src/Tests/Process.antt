-- ===== src/Tests/Process.antt =====
-- The theorem on the output of the child process at a concrete input, and its arguments.
use reticle.Common.{
  Text, codes, same, trim, trim_start, is_space, decimal, [], ◌∷◌, ◌++◌, none, some, true, false,
  ◌≡◌, refl, filter,
}
use reticle.Common.Lines.{split_lines, is_filled}
use reticle.Process.{
  ForgeProcess, ForgeStartRequest, ForgeSettings, Platform, stopped, stdout, stderr, spawns, start,
  launch, build_args, on_close, stop, escalate, interrupt, kill, is_child, OutputStream,
}
use reticle.Process.Chunks.{Chunk, consume_all, lines_of, text_of}
use reticle.Process.Output.{on_close-lines_of}

abbrev request : ForgeStartRequest
request = record {
  native = some true;
  port = 8080;
  batch = none;
  retries = some 2;
  isolated = none;
  fresh = none;
  all_models = none;
  prompt = some (codes " go ");
  workspace = none;
}

abbrev forge_settings : ForgeSettings
forge_settings = record {
  binary_path = codes "/r/forge";
  cwd = codes "/r/cmd/forge";
  batch = 4;
  retries = 3;
  isolated = true;
  all_models = false;
  native = false;
  workspace = none;
}

request_args :
    build_args request forge_settings
    ≡ codes "-port=8080"
      ∷ codes "-batch=4"
      ∷ codes "-retries=2"
      ∷ codes "-isolated=true"
      ∷ codes "-native"
      ∷ codes "go"
      ∷ []
unfolding build_args decimal trim trim_start is_space
request_args = refl

abbrev platform : Platform
platform = record {
  binary_exists = true;
  cwd_exists = true;
  warning = none;
  now = 5;
  spawn = spawns (some 42);
}

abbrev not_started : ForgeProcess
not_started = record {
  child = none;
  state = record {
    phase = stopped;
    pid = none;
    exit_code = none;
    binary_path = none;
    cwd = none;
    args = [];
    started_at = none;
    message = none;
    warning = none;
  };
  stdout_tail = [];
  stderr_tail = [];
  outputs = [];
  spawned = 0;
}

abbrev running_forge : ForgeProcess
running_forge = start platform request forge_settings not_started

running_forge_stops :
    (stop false running_forge ≡ some (0, interrupt))
    × (escalate false (some 42) running_forge ≡ some (0, kill))
unfolding start launch stop escalate same
running_forge_stops = (refl, refl)

running_forge_begins :
    (is_child 0 running_forge ≡ true)
    × (running_forge.stdout_tail ≡ [])
    × (running_forge.stderr_tail ≡ [])
unfolding start launch same
running_forge_begins = (refl, refl, refl)

abbrev chunk : OutputStream → Text → Chunk
chunk stream text = record { at = 9; stream = stream; text = text }

on_close-lines_of_example :
    lines_of stdout
      (on_close 9 0 (some 0) (
        consume_all
          (chunk stdout (codes "one\r")
            ∷ chunk stderr (codes "warning")
            ∷ chunk stdout (codes "\ntw")
            ∷ chunk stdout (codes "o")
            ∷ [])
          running_forge)).outputs
    ≡ lines_of stdout running_forge.outputs
      ++ filter is_filled (
          split_lines (
            text_of stdout (
              chunk stdout (codes "one\r")
              ∷ chunk stderr (codes "warning")
              ∷ chunk stdout (codes "\ntw")
              ∷ chunk stdout (codes "o")
              ∷ [])))
on_close-lines_of_example =
    on_close-lines_of 9 0 (some 0) stdout
      (chunk stdout (codes "one\r")
        ∷ chunk stderr (codes "warning")
        ∷ chunk stdout (codes "\ntw")
        ∷ chunk stdout (codes "o")
        ∷ [])
      running_forge running_forge_begins.0 running_forge_begins.1 running_forge_begins.2
