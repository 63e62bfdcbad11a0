-- ===== src/Auth/Model.antt =====
-- The data of internal/entity/user.go. Resources and privileges are texts there, with named constants.
use vearch.Prelude.{String, List, [], ◌∷◌, Option}

-- type OperatorType string
abbrev pub grant : String
grant = "Grant"

abbrev pub revoke : String
revoke = "Revoke"

-- type Privilege string
abbrev pub write_only : String
write_only = "WriteOnly"

abbrev pub read_only : String
read_only = "ReadOnly"

abbrev pub write_read : String
write_read = "WriteRead"

-- PriviMap, its keys
abbrev pub privi_map : List String
privi_map = "None" ∷ write_only ∷ read_only ∷ write_read ∷ []

-- ResourceMap, its keys
abbrev pub resource_map : List String
resource_map =
    "ResourceAll" ∷ "ResourceCluster" ∷ "ResourceServer" ∷ "ResourcePartition" ∷ "ResourceDB"
    ∷ "ResourceSpace" ∷ "ResourceDocument" ∷ "ResourceIndex" ∷ "ResourceAlias" ∷ "ResourceUser"
    ∷ "ResourceRole" ∷ "ResourceConfig" ∷ "ResourceCache" ∷ []

pub record Role : Type 0 where
  pub name : String
  pub operator : String
  pub privileges : List (String × String)

pub record User : Type 0 where
  pub name : String
  pub password : Option String
  pub old_password : Option String
  pub role_name : Option String

abbrev pub root_name : String
root_name = "root"

-- RootPrivilege and the others that the roles built in hold
abbrev pub cluster_privilege : List (String × String)
cluster_privilege =
    ("ResourceCluster", write_read)
    ∷ ("ResourceServer", write_read)
    ∷ ("ResourcePartition", write_read)
    ∷ ("ResourceDB", write_read)
    ∷ ("ResourceSpace", write_read)
    ∷ ("ResourceDocument", write_read)
    ∷ ("ResourceIndex", write_read)
    ∷ ("ResourceAlias", write_read)
    ∷ ("ResourceConfig", write_read)
    ∷ ("ResourceUser", write_read)
    ∷ ("ResourceRole", write_read)
    ∷ []

abbrev pub space_admin_privilege : List (String × String)
space_admin_privilege =
    ("ResourceSpace", write_read)
    ∷ ("ResourceDocument", write_read)
    ∷ ("ResourceIndex", write_read)
    ∷ ("ResourceAlias", read_only)
    ∷ []

abbrev pub read_db_space_edit_document_privilege : List (String × String)
read_db_space_edit_document_privilege =
    ("ResourceCluster", read_only)
    ∷ ("ResourceDB", read_only)
    ∷ ("ResourceSpace", read_only)
    ∷ ("ResourceDocument", write_read)
    ∷ ("ResourceIndex", write_read)
    ∷ ("ResourceAlias", read_only)
    ∷ []

abbrev pub read_space_edit_document_privilege : List (String × String)
read_space_edit_document_privilege =
    ("ResourceSpace", read_only)
    ∷ ("ResourceDocument", write_read)
    ∷ ("ResourceIndex", write_read)
    ∷ ("ResourceAlias", read_only)
    ∷ []

abbrev pub document_admin_privilege : List (String × String)
document_admin_privilege = ("ResourceDocument", write_read) ∷ ("ResourceIndex", write_read) ∷ []

-- RoleMap
abbrev pub role_map : List (String × Role)
role_map =
    ("root", record { name = "root"; operator = ""; privileges = ("ResourceAll", write_read) ∷ [] })
    ∷ (
      "defaultClusterAdmin",
      record { name = "defaultClusterAdmin"; operator = ""; privileges = cluster_privilege },
    )
    ∷ (
      "defaultSpaceAdmin",
      record { name = "defaultSpaceAdmin"; operator = ""; privileges = space_admin_privilege },
    )
    ∷ (
      "defaultDocumentAdmin",
      record {
        name = "defaultDocumentAdmin";
        operator = "";
        privileges = document_admin_privilege;
      },
    )
    ∷ (
      "defaultReadDBSpaceEditDocument",
      record {
        name = "defaultReadDBSpaceEditDocument";
        operator = "";
        privileges = read_db_space_edit_document_privilege;
      },
    )
    ∷ (
      "defaultReadSpaceEditDocument",
      record {
        name = "defaultReadSpaceEditDocument";
        operator = "";
        privileges = read_space_edit_document_privilege;
      },
    )
    ∷ []
