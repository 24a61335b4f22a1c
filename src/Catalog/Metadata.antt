-- ===== src/Catalog/Metadata.antt =====
-- PERMISSION_METADATA of common/auth/permission-catalog.ts: each key's name and description.
use balanz.Prelude.{String, List, [], ◌∷◌}

-- PERMISSION_METADATA
unfoldable pub permission_metadata : List (String × String × String)
permission_metadata =
    (
      "periods.view", "Consultar revisión mensual",
      "Consultar revisión mensual dentro del alcance autorizado.",
    )
    ∷ (
      "periods.review", "Editar revisión mensual",
      "Editar revisión mensual dentro del alcance autorizado.",
    )
    ∷ (
      "periods.ready", "Preparar cierre interno",
      "Preparar cierre interno dentro del alcance autorizado.",
    )
    ∷ (
      "periods.takeover", "Retomar edición mensual",
      "Retomar edición mensual dentro del alcance autorizado.",
    )
    ∷ (
      "cfdi.review", "Revisar participaciones CFDI",
      "Revisar participaciones CFDI dentro del alcance autorizado.",
    )
    ∷ (
      "cfdi.classify", "Clasificar participaciones CFDI",
      "Clasificar participaciones CFDI dentro del alcance autorizado.",
    )
    ∷ (
      "cfdi.bulk_action", "Aplicar decisiones por lote",
      "Aplicar decisiones por lote dentro del alcance autorizado.",
    )
    ∷ (
      "cfdi.categories.manage", "Administrar categorías de la organización",
      "Administrar categorías de la organización dentro del alcance autorizado.",
    )
    ∷ (
      "checklist.view", "Consultar checklist mensual",
      "Consultar checklist mensual dentro del alcance autorizado.",
    )
    ∷ (
      "checklist.complete", "Confirmar checklist mensual",
      "Confirmar checklist mensual dentro del alcance autorizado.",
    )
    ∷ (
      "checklist.configure", "Configurar checklist de la organización",
      "Configurar checklist de la organización dentro del alcance autorizado.",
    )
    ∷ ("organization.view", "Ver organización", "Consultar información visible de la organización.")
    ∷ (
      "organization.manage", "Administrar organización",
      "Modificar la configuración general de la organización.",
    )
    ∷ ("ownership.manage", "Administrar titularidad", "Transferir o administrar la titularidad.")
    ∷ ("billing.manage", "Administrar facturación", "Consultar y administrar plan y facturación.")
    ∷ ("team.view", "Ver equipo", "Consultar miembros de la organización.")
    ∷ ("clients.view", "Ver clientes", "Consultar cuentas cliente asignadas.")
    ∷ ("clients.manage", "Administrar clientes", "Crear, modificar y archivar cuentas cliente.")
    ∷ ("clients.assign", "Asignar clientes", "Asignar cuentas cliente a membresías.")
    ∷ (
      "fiscal_entities.view", "Ver entidades fiscales",
      "Consultar entidades fiscales de cuentas asignadas.",
    )
    ∷ (
      "fiscal_entities.manage", "Administrar entidades fiscales",
      "Crear, modificar y archivar entidades fiscales.",
    )
    ∷ (
      "fiscal_years.view", "Ver ejercicios fiscales",
      "Consultar ejercicios y períodos autorizados.",
    )
    ∷ (
      "fiscal_years.manage", "Administrar ejercicios fiscales",
      "Crear ejercicios y períodos mensuales.",
    )
    ∷ ("credentials.manage", "Administrar credenciales", "Cargar, sustituir o revocar e.firma.")
    ∷ (
      "sat.download", "Solicitar descarga SAT",
      "Solicitar una descarga de información fiscal del SAT.",
    )
    ∷ ("payroll.view", "Consultar nómina", "Consultar o exportar CFDI de nómina.")
    ∷ ("cfdi.exclude", "Excluir CFDI", "Excluir o reincorporar un CFDI con motivo.")
    ∷ ("ingestion.view", "Ver ingestas", "Consultar cargas fiscales dentro del alcance autorizado.")
    ∷ (
      "ingestion.create", "Crear ingestas",
      "Iniciar cargas fiscales dentro del alcance autorizado.",
    )
    ∷ (
      "ingestion.retry", "Reintentar ingestas", "Reintentar cargas fiscales propias o autorizadas.",
    )
    ∷ ("ingestion.cancel", "Cancelar ingestas", "Cancelar cargas fiscales propias o autorizadas.")
    ∷ ("processes.view", "Ver procesos fiscales", "Consultar procesos fiscales autorizados.")
    ∷ (
      "processes.retry", "Reintentar procesos fiscales",
      "Reintentar procesos fiscales autorizados.",
    )
    ∷ ("processes.cancel", "Cancelar procesos fiscales", "Cancelar procesos fiscales autorizados.")
    ∷ ("cfdi.view", "Ver CFDI", "Consultar CFDI dentro del alcance autorizado.")
    ∷ ("cfdi.download", "Descargar CFDI", "Descargar un CFDI mediante acceso temporal autorizado.")
    ∷ (
      "incidents.view", "Ver incidencias fiscales",
      "Consultar incidencias fiscales dentro del alcance autorizado.",
    )
    ∷ (
      "incidents.manage", "Gestionar incidencias fiscales",
      "Resolver y administrar incidencias fiscales autorizadas.",
    )
    ∷ ("exceptions.accept", "Aceptar excepciones", "Aceptar una excepción que permite continuar.")
    ∷ ("periods.close", "Cerrar períodos", "Crear una versión cerrada de un período.")
    ∷ ("periods.reopen", "Reabrir períodos", "Reabrir un período con motivo.")
    ∷ ("exports.generate", "Generar exportaciones", "Generar archivos Excel, CSV o ZIP.")
    ∷ ("support.authorize", "Autorizar soporte", "Conceder acceso temporal JIT a soporte.")
    ∷ (
      "members.manage", "Administrar miembros", "Invitar, suspender, reactivar o revocar miembros.",
    )
    ∷ (
      "permissions.manage", "Administrar permisos",
      "Conceder o denegar permisos de otras membresías.",
    )
    ∷ []
