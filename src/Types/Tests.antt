-- ===== src/Types/Tests.antt =====
-- The properties of the attribute types at concrete inputs.
use terraform_provider_hyper.Common.{◌≡◌, refl, ◌↔◌, true, arith}
use terraform_provider_hyper.Framework.{Attr}
use terraform_provider_hyper.Types.Runes.{runes, ascii_tables}
use terraform_provider_hyper.Types.Path.{SamePath}
use terraform_provider_hyper.Types.Mac.{SameMac}
use terraform_provider_hyper.Types.Path
use terraform_provider_hyper.Types.Mac

path_folds :
    Path.string_semantic_equals ⦃u = ascii_tables⦄ (Attr.known "C:/Foo") (Attr.known "c:\\foo")
    ≡ true
unfolding Path.string_semantic_equals
path_folds = refl

mac_folds :
    Mac.string_semantic_equals ⦃u = ascii_tables⦄ (Attr.known "aa:BB-01") (Attr.known "AABB01")
    ≡ true
unfolding Mac.string_semantic_equals Mac.normalize Mac.strip
mac_folds = refl

string_semantic_equals-SamePath_iff_example :
    (Path.string_semantic_equals ⦃u = ascii_tables⦄ (Attr.known "C:/Foo") (Attr.known "c:\\foo")
      ≡ true)
    ↔ SamePath (runes "C:/Foo") (runes "c:\\foo")
string_semantic_equals-SamePath_iff_example =
    Path.string_semantic_equals-SamePath_iff ⦃u = ascii_tables⦄ "C:/Foo" "c:\\foo" (omega arith)
      (omega arith)

string_semantic_equals-SameMac_iff_example :
    (Mac.string_semantic_equals ⦃u = ascii_tables⦄ (Attr.known "aa:B1") (Attr.known "AAB1") ≡ true)
    ↔ SameMac (runes "aa:B1") (runes "AAB1")
string_semantic_equals-SameMac_iff_example =
    Mac.string_semantic_equals-SameMac_iff ⦃u = ascii_tables⦄ "aa:B1" "AAB1" (omega arith)
      (omega arith)
