-- ===== src/Lib.antt =====
-- SwarmCracker runs SwarmKit tasks as Firecracker microVMs. This library models the parts of it
-- that decide which addresses, networks, root file systems, volumes and states a node has, and
-- proves what is listed below.
--
-- Parts, and how they interact:
-- * pkg/cni is SwarmKit's network allocator. CNINetworkAllocator (allocator.go:
--   Cni/Allocator.antt, with its children Services, Tasks and Nodes) keeps the allocated networks
--   by SwarmKit's id, and asks CNIProvider (provider.go: Cni/Provider.antt) for new ones and
--   IPAMManager (ipam.go: Cni/Ipam.antt; one pool and its search loops: Cni/Pool.antt; the bytes of
--   addresses: Cni/Ip.antt) for addresses. GenerateSubnet (config.go) is Cni/Subnet.antt,
--   GenerateVXLANID and NetworkNameFromSwarmKit are Cni/Names.antt, and the types of types.go are
--   Cni/Config.antt, Cni/Network.antt and IpPool of Cni/Pool.antt. RemoveConfigFile (files.go) is
--   Cni/Files.antt.
-- * StateManager of pkg/runtime/state.go is Runtime/State.antt: the states of the VMs in memory,
--   the state file and the temporary file beside it.
-- * The controller that SwarmKit's agent drives through a task's life (Controller of
--   pkg/swarmkit/executor.go) is Swarmkit/Controller.antt; it converts tasks (convertTask:
--   Swarmkit/Convert.antt, from the API's types in Swarmkit/Api.antt to those of
--   pkg/types/task.go in Types.antt) and calls the image, network, VM, secret and volume managers.
--   The configuration of a VM (translator.go) is Swarmkit/Translator.antt, and the table of the
--   Firecracker processes (VMMManager of vmm.go) is Swarmkit/Vmm.antt, without the jailer's start;
--   Swarmkit/Composition.antt puts them in the place of the controller's interfaces.
--   The processors and memory that the node offers (getCPUs, getMemory) are
--   Swarmkit/Resources.antt.
-- * IPAllocator of pkg/network/manager.go, which gives the VMs their addresses, is
--   Network/Addresses.antt; the TAP devices that NetworkManager makes with them (PrepareNetwork,
--   CleanupNetwork) are Network/Taps.antt.
-- * The executor of the stand-alone agent (FirecrackerExecutor of pkg/executor/executor.go) is
--   Executor.antt, over the managers that it calls; its channel of events is Executor/Events.antt.
--   Its VM manager (VMMManager of pkg/lifecycle/vmm.go) is Lifecycle.antt, with the loops that wait
--   in Lifecycle/Waiting.antt, the requests that configure a VM in Lifecycle/Configure.antt, and the
--   methods in Lifecycle/Start.antt, Lifecycle/Shutdown.antt and Lifecycle/Queries.antt;
--   Executor/Composition.antt puts it in the place of the executor's interface. Its translator
--   (pkg/translator/translator.go) is Translator.antt, with the configurations in
--   Translator/Config.antt and the kernel's arguments in Translator/Boot.antt; Json.antt is the
--   JSON that goes from the translator to the VM manager.
-- * Jailer of pkg/jailer/jailer.go is Jailer.antt, with the command of a jail in Jailer/Command.antt
--   and its processes in Jailer/Processes.antt; the cgroups of tasks (cgroup.go) are
--   Jailer/Cgroup.antt.
-- * The preparation of an image (ImagePreparer of pkg/image/preparer.go) is Image/Preparer.antt and
--   Image/Preparer/Prepare.antt; the names of images and their platforms (validator.go) are
--   Image/Reference.antt, the extraction of archives is Image/Tar.antt, what init system an image
--   has (detector.go) is Image/Detector.antt, and the injection of one (init.go, busybox.go) is
--   Image/Init.antt.
-- * What an image says it runs (pkg/image/oci_info.go) is Image/Oci.antt, and the init script that
--   runs it in the VM (pkg/image/wrapper.go) is Image/Wrapper.antt, with its quoting in
--   Image/Shell.antt. Image/Shell/Reader.antt is a reader of the POSIX shell's words, written from
--   the shell's rules and not from the code.
-- * Manager of pkg/snapshot/snapshot.go is Snapshots.antt, with CreateSnapshot in
--   Snapshots/Creation.antt and the restored processes in Snapshots/Processes.antt.
-- * The configuration file (pkg/config/config.go), from its decoded form on, is Configuration.antt.
-- * QuotaEnforcer of pkg/storage/volume_quota.go is Storage/Quota.antt, and what a volume reference
--   is (volume.go) is Storage/Volume.antt. The names of the volumes' directories are
--   Storage/Names.antt, the metadata (volume_meta.go) is Storage/Meta.antt, the copying of trees is
--   Storage/Trees.antt, and the directory driver and the manager over both drivers are
--   Storage/Manager.antt.
--
-- How the code is modelled. A method is a function from the state before the call to its result and
-- the state after it; the mutexes make each call one step, and where Stop of pkg/lifecycle and
-- pkg/jailer releases its mutex to wait, calls that come in between are not modelled. Each error
-- has a constructor, with the text it is about or the error it wraps. A Go map is an association
-- list; where the code ranges over a map, the order is an argument or that of the list. Pointers to
-- networks, which the provider and the allocator share, are addresses into one store. Addresses are
-- lists of bytes, and unsigned arithmetic wraps as written. A nil argument is `none`.
--
-- Parameters: the functions of Go's package net (Cni/Net.antt), the printer of numbers,
-- lower-casing, whether a configuration is encoded and written (CniEnv of Cni/Provider.antt),
-- encoding/json, the clock, the answers of the file system (Runtime/State.antt), the sizes that the
-- file system reports (Storage/Quota.antt), SHA-256 (Network/Addresses.antt), sort.Slice and what
-- Firecracker and the file system answer to CreateSnapshot (Snapshots.antt), and the managers of
-- the controller, which act on a world of which nothing else is known, the system calls of
-- Swarmkit/Vmm.antt, Lifecycle.antt, Jailer.antt and Network/Taps.antt, the kernel's files of
-- Jailer/Cgroup.antt, Go's functions on texts that Network/Taps.antt uses, the file systems of
-- Image/Preparer.antt, Image/Init.antt, Image/Tar.antt and Image/Detector.antt with the tools that
-- extract images, net.ParseCIDR, and the block driver of Storage/Manager.antt. What is relied on of
-- them stands in the hypotheses of the theorems: SubnetRange and Ipv4Subnet on IPNet.Contains,
-- IsCodec on encoding/json, IsSort on sort.Slice, KeepsTime on the clock, IsTree on the answers
-- about one directory tree, and Agree on two file systems. Tests/Net.antt, Tests/Codec.antt and
-- Tests/Snapshots.antt have concrete functions for which they hold.
--
-- Bounds: the loop of AllocateIP makes 256 attempts and that of AllocateVIP 16, as in the source,
-- and the models recurse on that number; 256 attempts are enough for a subnet of 256 addresses. The
-- probing of IPAllocator makes 256 attempts. The loops that wait for the API server and for the
-- shutdown of a VM have 101 and 61 rounds, one more than sleeps fit before the deadline.
--
-- Not modelled: the CNI plugin processes, the writing of configuration files, the block driver, the
-- snapshots of volumes, the restoring of snapshots, the start of VMs in the jailer, the bridges,
-- tunnels, NAT and DHCP, the CNI branch of PrepareNetwork, the making of ext4 images and the files
-- that are written into them, the statistics of cgroups and the entering of jails, health checks,
-- metrics, discovery and the commands, which mostly drive the operating system; times of creation
-- of networks, which nothing reads.
pub mod Prelude
pub mod Types
pub mod Json
pub mod Cni
pub mod Network
pub mod Image
pub mod Configuration
pub mod Runtime
pub mod Snapshots
pub mod Storage
pub mod Translator
pub mod Jailer
pub mod Lifecycle
pub mod Executor
pub mod Swarmkit
pub mod Tests
