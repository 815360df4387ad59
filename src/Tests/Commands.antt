-- ===== src/Tests/Commands.antt =====
-- The assembler driver, called by a compiler.
use flash_stack.Base.{◌<◌, ◌≡◌, ◌↔◌, true, List, [], ◌∷◌, ◌++◌, none, some, arith, Bytes, codes}
use flash_stack.Instrument.{cfi_startproc, cfi_endproc}
use flash_stack.Command.{
  Surroundings, Invocation, edited, unreadable_input, edit_params, modified_name,
}
use flash_stack.Command.Params.{
  lines_with, LiesElsewhere, NoSlash, edit_params-pass_thru_iff, modified_name-NoSlash,
}

abbrev pub compiler : Surroundings
compiler = record {
  tmpdir = none;
  temp = none;
  tmp = none;
  afl_as = none;
  file_lines = λ name. some (cfi_startproc ∷ cfi_endproc ∷ []);
  stamp = codes "17-99";
}

abbrev pub source_file : Bytes
source_file = codes "src/a.s"

edit_params-pass_thru_iff_example :
    (compiler.file_lines source_file ≡ none
      → edit_params compiler (codes "-o" ∷ codes "a.o" ∷ []) source_file ≡ unreadable_input)
    × ((lines : List Bytes)
        → compiler.file_lines source_file ≡ some lines
        → (c : Invocation) × (edit_params compiler (codes "-o" ∷ codes "a.o" ∷ []) source_file
            ≡ edited c)
          × ((c.pass_thru ≡ true) ↔ (
              LiesElsewhere compiler source_file
              × ¬ (
                  (0 < lines_with cfi_startproc lines)
                  × (lines_with cfi_startproc lines ≡ lines_with cfi_endproc lines)))))
edit_params-pass_thru_iff_example =
    edit_params-pass_thru_iff compiler (codes "-o" ∷ codes "a.o" ∷ []) source_file
      (λ e. ground (arith, e))

modified_name-NoSlash_example :
    (name : Bytes) × (modified_name compiler source_file ≡ codes "/tmp" ++ (b'/' ∷ name))
    × NoSlash name
modified_name-NoSlash_example = modified_name-NoSlash compiler source_file (ground arith)
