-- ===== src/Process/Examples.antt =====
-- The theorems on the start of programs at concrete ones.
use w12_13_vm.Common.{ℕ, ◌+◌, ◌≡◌, ◌<◌, refl, List, [], ◌∷◌, true, false, none, some, map, arith}
use w12_13_vm.Common.Int.{pos}
use w12_13_vm.FileSys.{FileSys}
use w12_13_vm.Inode.Read.{content}
use w12_13_vm.Process.Segments.{
  Phdr, FileInfo, Pages, Round, kern_base, segment_of, validate_segment, load_segment,
  lazy_load_segment,
}
use w12_13_vm.Process.Segments.Valid.{Covers, validate_segment-segment_of}
use w12_13_vm.Process.Segments.Load.{Loaded, load_segment-Loaded}
use w12_13_vm.Process.Segments.Lazy.{lazy_load_segment_lem}
use w12_13_vm.Process.Arguments.{UserStack, pass_args, parse_args}
use w12_13_vm.Process.Arguments.Words.{
  Gap, word, byte, no_byte, AllWords, no_word, next_word, command_line, parse_args-command_line,
}
use w12_13_vm.Process.Arguments.Stack.{IsArgv, strings_size, pass_args-IsArgv}

-- Code of 5000 bytes, of which the file has 3000.
abbrev code : Phdr
code = record {
  p_type = 1;
  p_flags = 5;
  p_offset = 8448;
  p_vaddr = 4194560;
  p_paddr = 0;
  p_filesz = 3000;
  p_memsz = 5000;
  p_align = 4096;
}

validate_segment-segment_of_example :
    (code.p_vaddr + code.p_memsz < kern_base)
    × (code.p_memsz < 4294959104 → Covers code (segment_of code))
unfolding validate_segment
validate_segment-segment_of_example =
    validate_segment-segment_of code 20000 (omega arith) (omega arith) refl

abbrev enough : ℕ → Round
enough a = record { has_aux = true; file_memory = some a; has_page = true }

abbrev unmapped : Pages
unmapped a = none

abbrev system : FileSys
system = record {
  disk = λ t j. t + j;
  free_map = record {
    free_map = record { bit_cnt = 64; bits = λ idx j. true };
    has_file = true;
    in_file = none;
    writes = true;
  };
  open_inodes = 20 ∷ [];
  inodes = λ a. record {
    sector = 1;
    open_cnt = pos 1;
    removed = false;
    deny_write_cnt = pos 0;
    inode_disk = record { start = 3; length = 20000; magic = 1229868868 };
  };
  files = λ f. record {
    inode = 20;
    file_pos = 0;
    deny_write = false;
    dup_count = pos 1;
    mapping_cnt = pos 0;
  };
}

load_segment-Loaded_example :
    (pages : Pages) × (s : FileSys) × (load_segment enough 30 8192 4194304 3256 4936 false unmapped
        system
      ≡ some (true, pages, s))
    × Loaded enough 8192 4194304 3256 false 2 unmapped system pages s
load_segment-Loaded_example =
    load_segment-Loaded enough 30 8192 4194304 3256 4936 2 false unmapped system
      (λ a. (refl, refl, (a, refl))) refl (omega arith) refl refl (omega arith) (λ j lt. refl)

abbrev first_page : FileInfo
first_page = record {
  file = some 30;
  ofs = 8192;
  upage = 4194304;
  read_bytes = 3256;
  zero_bytes = 4936;
  writable = false;
}

lazy_load_segment_lem_example :
    lazy_load_segment true 30 first_page (λ k. 204) system 700
    ≡ content system.disk (system.inodes 20).inode_disk (8192 + 700)
lazy_load_segment_lem_example =
    lazy_load_segment_lem 30 first_page (λ k. 204) system 700 (omega arith) (omega arith)
      (omega arith)

-- "ls -l" with two spaces between its words and one behind them.
abbrev ls : List Gap
ls =
    record { before = 0; text = 108 ∷ 115 ∷ [] }
    ∷ (record { before = 1; text = 45 ∷ 108 ∷ [] } ∷ [])

ls-AllWords : AllWords ls
ls-AllWords =
    next_word _ _ (word 108 _ refl (byte 115 _ refl no_byte))
      (next_word _ _ (word 45 _ refl (byte 108 _ refl no_byte)) no_word)

parse_args-command_line_example :
    parse_args 9 0 (command_line ls 1) ≡ some (map (λ (g : Gap). g.text) ls)
parse_args-command_line_example = parse_args-command_line ls 1 9 ls-AllWords (omega arith)

abbrev argv : List (List ℕ)
argv = (108 ∷ 115 ∷ []) ∷ ((45 ∷ 108 ∷ []) ∷ [])

abbrev user_stack : UserStack
user_stack = record { rsp = 1195900928; mem = λ a. 0 }

pass_args-IsArgv_example : IsArgv argv user_stack (pass_args argv user_stack)
unfolding strings_size
pass_args-IsArgv_example = pass_args-IsArgv argv user_stack (omega arith) (omega arith)
