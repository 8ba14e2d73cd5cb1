-- ===== src/Witness.antt =====
-- app/witness: the comparison of a plan with a host. Each child says which code it models.
pub mod Input
pub mod Outcomes
pub mod Order
pub mod Evaluate
pub mod PortMatch
pub mod Ownership
pub mod PortHolders
pub mod HolderText
pub mod PortConflict
pub mod PortState
pub mod ContainerNames
pub mod VolumeNames
pub mod NetworkNames
pub mod Subnets
pub mod DynamicRange
pub mod HostNetwork
pub mod PortRule
pub mod Binds
pub mod BindPaths
pub mod Rollback
