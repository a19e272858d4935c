-- ===== src/Kernel/StoredExample.antt =====
-- Two concrete lines at a volume that holds a file.
use pios_private.Base.{◌≡◌, refl, arith, some, [], ◌∷◌, ◌++◌}
use pios_private.Mem.{Bytes, zeros, literal, codes, get16}
use pios_private.Mem.Text.{IsText}
use pios_private.Fat.State.{cluster}
use pios_private.Fat.Sample.{locals, greeting, locals-IsClean, locals-IsCleanIo}
use pios_private.Fat.Io.TwoFiles.{fs, fs-HasLayout, note-IsRootFile}
use pios_private.Parse.Rows.{fields}
use pios_private.Command.{Scratch, says_text}
use pios_private.Kernel.{Kernel, kernel_round}
use pios_private.Kernel.Steps.{IsReady}
use pios_private.Kernel.EchoCat.{IsLine, kernel_round-echo-cat}

abbrev kernel : Kernel
kernel = record {
  shell = record {
    fs = fs;
    parse_arguments = zeros;
    working_directory = literal "/";
    console = [];
  };
  buffer = zeros;
  input = codes "echo \"hi all\" > note" ++ 10 ∷ (codes "cat note" ++ 10 ∷ []);
}

kernel-IsReady : IsReady kernel
kernel-IsReady = record { layout = fs-HasLayout; arguments = λ j lt. refl; line = λ j lt. refl }

abbrev scratch : Scratch
scratch = record { locals = locals; temp_file = greeting; buffer = λ j. 1 }

echo_input-IsLine : IsLine (codes "echo \"hi all\" > note")
unfolding fields
echo_input-IsLine = record {
  no_newline = ground arith;
  no_nul = ground arith;
  fits = omega arith;
  few = omega arith;
}

cat_input-IsLine : IsLine (codes "cat note")
unfolding fields
cat_input-IsLine = record {
  no_newline = ground arith;
  no_nul = ground arith;
  fits = omega arith;
  few = omega arith;
}

kernel_round-echo-cat_example :
    (k₁ : Kernel) × (k₂ : Kernel) × (r : Bytes) × (kernel_round 200 10 scratch kernel ≡ some k₁)
    × (kernel_round 200 9 scratch k₁ ≡ some k₂)
    × (k₂.input ≡ [])
    × (k₂.shell.console
        ≡ says_text "%s\n" r ∷ says_text "%s> " k₁.shell.working_directory ∷ k₁.shell.console)
    × IsText r (codes "hi all")
unfolding fields cluster get16
kernel_round-echo-cat_example =
    kernel_round-echo-cat 200 9 (omega arith) b'n' (codes "ote") (omega arith) (ground arith)
      scratch scratch kernel (codes "echo \"hi all\" > note") (codes "cat note") [] 0 b'e' b'c' b'h'
      (codes "i all") [] kernel-IsReady echo_input-IsLine cat_input-IsLine refl locals-IsClean
      locals-IsCleanIo (λ e. absurd (omega (arith, e))) locals-IsClean (omega arith) refl refl refl
      refl (omega arith) refl refl note-IsRootFile refl
