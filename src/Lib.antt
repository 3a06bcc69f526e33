-- ===== src/Lib.antt =====
-- A model of the Hyper-V Terraform provider, with proofs about its VM, disk and switch resources, the
-- client that they call and the selection of a backend.
--
-- The program. A resource handler (internal/resources) gets a plan and the recorded state from
-- Terraform's plugin framework, calls a typed client (internal/hyperv), which runs PowerShell scripts on
-- a Hyper-V host through a connection (internal/connection), and writes what it reads back to state. The
-- VM resource is the largest: it attaches and detaches disks, network adapters and DVD drives by diffing
-- plan and state, applies scalar changes and power transitions, and reconciles what the host reports with
-- what the plan asked for.
--
-- The files.
-- Framework: attribute values (null, unknown or known) and diagnostics of the plugin framework.
-- Types/Path, Types/Mac: internal/types/path/path.go and internal/types/mac/mac.go, normalize and
-- StringSemanticEquals, over runes (Types/Runes).
-- Hyperv/Dto: the VM part of internal/hyperv/types.go. Hyperv/Errors: internal/hyperv/errors.go.
-- Hyperv/Client: the client's VM operations as an interface over an abstract state of the world.
-- Hyperv/Script: internal/hyperv/script.go, runScript and minifyPS. Hyperv/Session: the locks of
-- internal/hyperv/client.go and withNatLock. Hyperv/Verify: the loop that the recoveries of vhd.go and
-- vswitch.go share; Hyperv/Disks, Hyperv/Switches and Hyperv/Mappings: internal/hyperv/vhd.go, vswitch.go,
-- and nat_static_mapping.go with port_proxy.go. Hyperv/Vms: internal/hyperv/vm.go and netnat.go, which fill the
-- interface of Hyperv/Client. Hyperv/Images: the operations of image_file.go on
-- files that the host already holds. Hyperv/Clock: the clock and the cancellable waits.
-- Connection: internal/connection/errors.go; Connection/Ssh, Winrm and Local: NewSSH, NewWinRM, NewLocal.
-- Provider: internal/provider/provider_model.go and the resolve functions of backend_select.go;
-- Provider/Backends: newConnection and what it calls.
-- Vswitch: internal/resources/vswitch, with Vswitch/Model (model.go and the translations of resource.go),
-- Vswitch/Crud (Create, Read, Update, Delete), Vswitch/Validators (the eight validators) and
-- Vswitch/Network (what they use of Go's package net).
-- Disk: internal/resources/vhd, with Disk/Model (model.go and the translations of resource.go), Disk/Crud
-- (ModifyPlan, Create, Read, Update, Delete) and Disk/Validators (the four validators).
-- Firewall: internal/resources/internal/firewallrule. Proxy and NatMapping: internal/resources/port_proxy and
-- nat_static_mapping (model.go, Create, Read, Update, Delete and ImportState), with what they share in
-- Hyperv/Handling.
-- Vm/Model: internal/resources/vm/model.go. The other files under Vm model
-- internal/resources/vm/resource.go: Vm/Diff and Vm/Slots the attachment diffs (diffHardDiskDrives,
-- diffNetworkAdapters, diffDvdDrives and the inputs of the scripts), Vm/Input buildNewInput and
-- buildSetInput, Vm/Reconcile the reconciliations and the boot order, Vm/Hydrate modelFromVM,
-- Vm/Handlers and Vm/Crud Create, Read, Update and Delete. Vm/Wait models internal/resources/vm/wait.go.
-- Vm/Validators: the configuration validators of resource.go and wait.go. Vm/Upgrade:
-- internal/resources/vm/upgrade.go, the state upgrades.
-- Their children hold the proofs, and the Tests files run the definitions on concrete inputs.
--
-- Conventions. Pointers that may be nil are options; a nil `cpu` or `memory` block, on which the code
-- would fault, is an outcome of its own. Go's int and int64 are unbounded integers here: the code only
-- copies, compares and tests them. Maps are association lists, and the order in which a `range` visits a
-- map is a parameter, as is the permutation that sort.Slice makes. Go's Unicode tables,
-- time.ParseDuration, net.ParseIP, the JSON decoder, the clock and the cancellation of a context are
-- parameters too. Text that only reaches the detail of a diagnostic or a log line is left out.
--
-- The scripts are embedded text that the runner takes; what it does with them on the host is the
-- parameter Runner, and a script's output is decoded by parameters. A struct that goes to a script is the
-- list of its JSON keys and values, with those that omitempty drops left out. Locks are modelled as one
-- goroutine sees them: an operation that takes a lock it already holds never returns. IP addresses are
-- the numbers of their 16 bytes.
--
-- Fuel. The wait for a guest address is a loop on fuel; its caller gives one more than the timeout in
-- nanoseconds, which is enough because each pause lasts at least a nanosecond and the pauses end at the
-- deadline. The loop after a dropped connection is bounded by the code itself, at five reads.
--
-- Not modelled. The schema tables and the framework's plumbing, which are declarative; the PowerShell
-- scripts; the transports of the connections, which are I/O; the downloads and uploads of image files;
-- the image file resource, the data sources and the ISO builder, which the modelled parts do not call.
mod Common
pub mod Framework
pub mod Connection
pub mod Types
pub mod Hyperv
pub mod Vm
pub mod Disk
pub mod Firewall
pub mod Proxy
pub mod NatMapping
pub mod Vswitch
pub mod Provider
