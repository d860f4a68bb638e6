-- ===== src/Types/Permission.antt =====
-- src/ic_oss_types/src/permission.rs: resources, operations, permissions, policies and sets of
-- policies, what they grant, and their text form.
pub mod Name
pub mod Kind
pub mod Rule
pub mod Policy
pub mod Policies
pub mod Granting
pub mod Inclusion
pub mod Printing
pub mod ResourcesRoundTrip
pub mod PolicyRoundTrip
pub mod RoundTrip
