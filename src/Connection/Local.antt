-- ===== src/Connection/Local.antt =====
-- internal/connection/local.go: the choice of the PowerShell binary.
use terraform_provider_hyper.Common.{String, List, [], ◌∷◌, Option, none, some, ◌==◌, if◌then◌else◌}
use terraform_provider_hyper.Connection.{Machine}

first_on_path : ⦃k : Machine⦄ → List String → Option String
first_on_path [] = none
first_on_path ⦃k⦄ (name ∷ names) =
    let rest = first_on_path names in
    elim (k.look_path name) [ some path ↦ some path | none ↦ rest ]

unfoldable pub discover_pwsh : ⦃k : Machine⦄ → String → Option String
unfolding first_on_path
discover_pwsh override =
    if override == ""
    then first_on_path ("pwsh" ∷ "powershell.exe" ∷ "powershell" ∷ [])
    else some override

-- NewLocal: the binary that the backend runs.
unfoldable pub new_local : ⦃k : Machine⦄ → String → Option String
unfolding discover_pwsh
new_local pwsh_path = discover_pwsh pwsh_path
